-- ===== src/Pmm/Scan.antt =====
-- The search of `first_free_block`: it finds the lowest clear bit of the words that it reads.
use piggy_os.Base.{
  ℕ, zero, suc, ◌+◌, ◌-◌, ◌*◌, ◌/◌, ◌%◌, ◌^◌, ◌≤◌, ◌<◌, ◌≡◌, Bool, true, false, Option, none, some,
  inl, inr, arith, ◌==◌, Bool-cases, ==_iff, ltb, ltb→lt, add32,
}
use piggy_os.Base.Bits.{bit, bit_lt, bit_and-two_pow, bit-complement, bit-zero}
use native.Mathlib.Nat.{one-le-pow}
use piggy_os.Pmm.{scan_bits, scan_words}

-- Whether the bit of block `b` is set.
abbrev pub bit_of : (ℕ → ℕ) → ℕ → Bool
bit_of words b = bit (words (b / 32)) (b % 32) == 1

-- `o` is the lowest number in `[lo, hi)` that `p` fails on, or `none` where there is none.
abbrev pub IsFirst : (ℕ → Bool) → ℕ → ℕ → Option ℕ → Type 0
IsFirst p lo hi none = (q : ℕ) → lo ≤ q → q < hi → p q ≡ true
IsFirst p lo hi (some r) =
    (lo ≤ r) × (r < hi) × (p r ≡ false) × ((q : ℕ) → lo ≤ q → q < r → p q ≡ true)

-- A range splits into its first number and the rest.
past :
    (p : ℕ → Bool) (lo hi : ℕ)
    → p lo ≡ true
    → ((q : ℕ) → suc lo ≤ q → q < hi → p q ≡ true)
    → (q : ℕ) → lo ≤ q
    → q < hi
    → p q ≡ true
past p lo hi e h q a b = elim (Bool-cases (lo == q)) [
  | inl same ↦ rw (← (==_iff lo q).0 same) e
  | inr ne ↦ h q (ground arith) b
]

-- A number that passes in front of the range changes nothing.
IsFirst-after :
    (p : ℕ → Bool) (lo hi : ℕ) (o : Option ℕ)
    → p lo ≡ true
    → IsFirst p (suc lo) hi o
    → IsFirst p lo hi o
IsFirst-after p lo hi none e h = past p lo hi e h
IsFirst-after p lo hi (some r) e h = (omega arith, h.1, h.2, past p lo r e h.3)

bit-ne-one : (w j : ℕ) → (bit w j == 1) ≡ false → bit w j ≡ 0
bit-ne-one w j e = ground (arith, bit_lt w j)

scan_bits_hit : (rounds w j : ℕ) → (bit w j == 1) ≡ false → scan_bits (suc rounds) w j ≡ some j
unfolding scan_bits
scan_bits_hit rounds w j e = ground (arith, bit_and-two_pow w j, bit-ne-one w j e)

scan_bits_miss :
    (rounds w j : ℕ)
    → (bit w j == 1) ≡ true
    → scan_bits (suc rounds) w j ≡ scan_bits rounds w (suc j)
unfolding scan_bits
scan_bits_miss rounds w j e =
    let one : bit w j ≡ 1 = ground arith in ground (arith, bit_and-two_pow w j, one-le-pow j 2)

scan_bits-IsFirst :
    (rounds w j n : ℕ) → n ≡ j + rounds → IsFirst (λ k. bit w k == 1) j n (scan_bits rounds w j)
unfolding scan_bits
scan_bits-IsFirst zero w j n e = λ q a b. absurd (omega arith)
scan_bits-IsFirst (suc rounds) w j n e = elim (Bool-cases (bit w j == 1)) [
  | inl set ↦ rw (scan_bits_miss rounds w j set) (
      IsFirst-after (λ k. bit w k == 1) j n (scan_bits rounds w (suc j)) set
        (scan_bits-IsFirst rounds w (suc j) n (omega arith)))
  | inr free ↦
      rw (scan_bits_hit rounds w j free)
        (omega arith, omega arith, free, λ q a b. absurd (omega arith))
]

-- A word of ones has every bit set.
full_word : (w k : ℕ) → (w == 0xffffffff) ≡ true → k < 32 → (bit w k == 1) ≡ true
full_word w k e h =
    let same : w ≡ 2 ^ 32 - 1 - 0 = ground arith in
    rw same (ground (arith, bit-complement 32 0 k (omega arith) h, bit-zero k))

-- The blocks of word `i`, `32 * i` on.
bit_of_word :
    (words : ℕ → ℕ) (i k : ℕ) → k < 32 → bit_of words (i * 32 + k) ≡ (bit (words i) k == 1)
bit_of_word words i k h =
    let quotient : (i * 32 + k) / 32 ≡ i = omega arith in
    let remainder : (i * 32 + k) % 32 ≡ k = omega arith in rw (quotient, remainder)

WordSet : (ℕ → ℕ) → ℕ → ℕ → Type 0
WordSet words i n = (k : ℕ) → k < n → (bit (words i) k == 1) ≡ true

-- The blocks of a word of which the first `n` bits are set.
blocks_set :
    (words : ℕ → ℕ) (i n : ℕ)
    → n ≤ 32
    → WordSet words i n
    → (q : ℕ) → i * 32 ≤ q
    → q < i * 32 + n
    → bit_of words q ≡ true
unfolding WordSet
blocks_set words i n small h q a b =
    let at : q ≡ i * 32 + (q - i * 32) = omega arith in
    rw (at, bit_of_word words i (q - i * 32) (omega arith)) (h (q - i * 32) (omega arith))

-- Whether a block lies in word `i` or past it.
split_at :
    (words : ℕ → ℕ) (i n : ℕ)
    → WordSet words i 32
    → ((q : ℕ) → suc i * 32 ≤ q → q < n → bit_of words q ≡ true)
    → (q : ℕ) → i * 32 ≤ q
    → q < n
    → bit_of words q ≡ true
split_at words i n h later q a b = elim (Bool-cases (ltb q (suc i * 32))) [
  | inl inside ↦ blocks_set words i 32 (omega arith) h q a (omega (arith, ltb→lt _ _ inside))
  | inr outside ↦ later q (ground arith) b
]

IsFirst-after_word :
    (words : ℕ → ℕ) (i n : ℕ) (o : Option ℕ)
    → WordSet words i 32
    → IsFirst (bit_of words) (suc i * 32) n o
    → IsFirst (bit_of words) (i * 32) n o
IsFirst-after_word words i n none h first = split_at words i n h first
IsFirst-after_word words i n (some r) h first =
    (omega (arith, first.0), first.1, first.2, split_at words i r h first.3)

-- What one round of the outer loop does with the answer of the inner one.
after_bits : Option ℕ → ℕ → Option ℕ → Option ℕ
after_bits (some j) i rest = some (add32 (i * 32) j)
after_bits none i rest = rest

scan_words-step :
    (rounds : ℕ) (words : ℕ → ℕ) (i : ℕ)
    → (words i == 0xffffffff) ≡ false
    → scan_words (suc rounds) words i
      ≡ after_bits (scan_bits 32 (words i) 0) i (scan_words rounds words (suc i))
unfolding scan_words after_bits
scan_words-step rounds words i e = ground arith

scan_words_full :
    (rounds : ℕ) (words : ℕ → ℕ) (i : ℕ)
    → (words i == 0xffffffff) ≡ true
    → scan_words (suc rounds) words i ≡ scan_words rounds words (suc i)
unfolding scan_words
scan_words_full rounds words i e = ground arith

after_bits-IsFirst :
    (words : ℕ → ℕ) (i n : ℕ) (found rest : Option ℕ)
    → suc i * 32 ≤ n
    → n ≤ 2 ^ 32
    → IsFirst (λ k. bit (words i) k == 1) 0 32 found
    → IsFirst (bit_of words) (suc i * 32) n rest
    → IsFirst (bit_of words) (i * 32) n (after_bits found i rest)
unfolding after_bits WordSet
after_bits-IsFirst words i n none rest fits small h first =
    IsFirst-after_word words i n rest (λ k lt. h k (omega arith) lt) first
after_bits-IsFirst words i n (some j) rest fits small h first =
    let (a, b, clear, below) = h in
    let exact : add32 (i * 32) j ≡ i * 32 + j = omega arith in
    rw exact (
      omega arith,
      omega arith,
      rw (bit_of_word words i j b) clear,
      blocks_set words i j (omega arith) (λ k lt. below k (omega arith) lt),
    )

-- `first_free_block` reads the words from `i` on and finds the lowest clear bit, if there is one.
pub scan_words-IsFirst :
    (rounds : ℕ) (words : ℕ → ℕ) (i n : ℕ)
    → n ≡ (i + rounds) * 32
    → n ≤ 2 ^ 32
    → IsFirst (bit_of words) (i * 32) n (scan_words rounds words i)
unfolding scan_words WordSet
scan_words-IsFirst zero words i n e small = λ q a b. absurd (omega arith)
scan_words-IsFirst (suc rounds) words i n e small =
    let rest = scan_words-IsFirst rounds words (suc i) n (omega arith) small in
    elim (Bool-cases (words i == 0xffffffff)) [
      | inl full ↦ rw (scan_words_full rounds words i full) (
          IsFirst-after_word words i n (scan_words rounds words (suc i))
            (λ k lt. full_word (words i) k full lt) rest)
      | inr some_clear ↦ rw (scan_words-step rounds words i some_clear) (
          after_bits-IsFirst words i n (scan_bits 32 (words i) 0) (scan_words rounds words (suc i))
            (omega arith) small (scan_bits-IsFirst 32 (words i) 0 32 (omega arith)) rest)
    ]
