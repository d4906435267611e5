-- ===== src/Rand/Fill.antt =====
-- `init_rand` and `read_random`: validity, and what is written.
use piggy_os.Base.{
  ℕ, zero, suc, ◌+◌, ◌-◌, ◌^◌, ◌<◌, ◌≤◌, ◌≡◌, ◌≢◌, ◌⊎◌, inl, inr, refl, sym, ◌∙◌, arith, bit_xor,
  u8, update, update_self, update_ne, subst, List, [], ◌∷◌, ◌%◌, ◌*◌, ap, Bool-cases, ◌==◌, ==_iff,
}
use piggy_os.Base.Bits.{bit_xor-lt}
use piggy_os.Rand.{Rand, phi, initial, seed, init_from, init_rand, rand, read_from, read_random}
use piggy_os.Rand.Step.{IsValid, rand-Stepped}

-- The numbers that the generator answers, one after the other, and the state behind them.
abbrev pub numbers : (n : ℕ) → Rand → List ℕ
numbers zero s = []
numbers (suc n) s = let (r, s') = rand s in r ∷ numbers n s'

abbrev pub state_after : (n : ℕ) → Rand → Rand
state_after zero s = s
state_after (suc n) s = state_after n (rand s).1

-- The low bytes of the numbers stand from `p` on.
abbrev pub Bytes : (ℕ → ℕ) → (p : ℕ) → List ℕ → Type 0
Bytes mem p [] = Unit
Bytes mem p (r ∷ rs) = (mem p ≡ u8 r) × Bytes mem (p + 1) rs

pub state_after-IsValid : (n : ℕ) (s : Rand) → IsValid s → IsValid (state_after n s)
state_after-IsValid zero s v = v
state_after-IsValid (suc n) s v = state_after-IsValid n (rand s).1 (rand-Stepped s v).1

-- What the loop leaves in the buffer, and elsewhere.
record Filled (n p : ℕ) (mem : ℕ → ℕ) (s : Rand) (r : (ℕ → ℕ) × Rand) : Type 0 where
  bytes : Bytes r.0 p (numbers n s)
  outside : (j : ℕ) → (j < p) ⊎ (p + n ≤ j) → r.0 j ≡ mem j
  state : r.1 ≡ state_after n s

read_from-Filled : (n p : ℕ) (mem : ℕ → ℕ) (s : Rand) → Filled n p mem s (read_from n p mem s)
unfolding read_from
read_from-Filled zero p mem s = record { bytes = tt; outside = λ j o. refl; state = refl }
read_from-Filled (suc n) p mem s =
    let r = (rand s).0 in
    let mem' = update mem p (u8 r) in
    let rest = read_from-Filled n (p + 1) mem' (rand s).1 in
    record {
      bytes = (rest.outside p (inl (omega arith)) ∙ update_self mem p (u8 r), rest.bytes);
      outside = λ j o. rest.outside j (later j o) ∙ update_ne mem p (u8 r) (elsewhere j o);
      state = rest.state;
    }
  where
    later : (j : ℕ) → (j < p) ⊎ (p + suc n ≤ j) → (j < p + 1) ⊎ (p + 1 + n ≤ j)
    later j (inl b) = inl (omega arith)
    later j (inr b) = inr (omega arith)

    elsewhere : (j : ℕ) → (j < p) ⊎ (p + suc n ≤ j) → p ≢ j
    elsewhere j (inl b) = omega arith
    elsewhere j (inr b) = omega arith

-- A read of `size` bytes, whatever the offset, answers `size`, fills the buffer with the low bytes
-- of the next `size` numbers and writes to nothing else; the state is that behind these numbers.
pub read_random-numbers :
    (offset size p : ℕ) (mem : ℕ → ℕ) (s : Rand)
    → IsValid s
    → let (n, mem', s') = read_random offset size p mem s in
      (n ≡ size)
      × Bytes mem' p (numbers size s)
      × ((j : ℕ) → (j < p) ⊎ (p + size ≤ j) → mem' j ≡ mem j)
      × (s' ≡ state_after size s)
      × IsValid s'
unfolding read_random
read_random-numbers offset size p mem s v =
    let filled = read_from-Filled size p mem s in
    (
      refl,
      filled.bytes,
      filled.outside,
      filled.state,
      subst IsValid (sym filled.state) (state_after-IsValid size s v),
    )

init_from-word :
    (rounds i : ℕ) (q : ℕ → ℕ)
    → i + rounds ≤ 2 ^ 32
    → ((k : ℕ) → q k < 2 ^ 32)
    → (k : ℕ) → init_from rounds i q k < 2 ^ 32
unfolding init_from
init_from-word zero i q lt h k = h k
init_from-word (suc rounds) i q lt h k =
    let mixed = bit_xor (bit_xor (q (i - 3)) (q (i - 2))) phi in
    let small : bit_xor mixed i < 2 ^ 32 =
      bit_xor-lt 32 mixed i
        (bit_xor-lt 32 (bit_xor (q (i - 3)) (q (i - 2))) phi
          (bit_xor-lt 32 (q (i - 3)) (q (i - 2)) (h (i - 3)) (h (i - 2))) (omega arith))
        (omega arith) in
    init_from-word rounds (suc i) (update q i (bit_xor mixed i)) (omega arith)
      (λ j. updated q i (bit_xor mixed i) j (h j) small) k
  where
    updated : (w : ℕ → ℕ) (p v j : ℕ) → w j < 2 ^ 32 → v < 2 ^ 32 → update w p v j < 2 ^ 32
    updated w p v j a b = ground arith

seed-words :
    (x : ℕ) (q : ℕ → ℕ) → x < 2 ^ 32 → ((k : ℕ) → q k < 2 ^ 32) → (k : ℕ) → seed x q k < 2 ^ 32
seed-words x q lt h k = ground (arith, h k)

-- `init_rand` of a 32-bit number makes a valid state of the first one, and of any other valid state.
pub init_rand-IsValid : (x : ℕ) (s : Rand) → x < 2 ^ 32 → IsValid s → IsValid (init_rand x s)
unfolding init_rand
init_rand-IsValid x s lt v = record {
  word = init_from-word 4093 3 (seed x s.q) (omega arith) (seed-words x s.q lt v.word);
  carry = v.carry;
  index = v.index;
}

init_from-before : (rounds i : ℕ) (q : ℕ → ℕ) (k : ℕ) → k < i → init_from rounds i q k ≡ q k
unfolding init_from
init_from-before zero i q k lt = refl
init_from-before (suc rounds) i q k lt =
    let v = bit_xor (bit_xor (bit_xor (q (i - 3)) (q (i - 2))) phi) i in
    init_from-before rounds (suc i) (update q i v) k (omega arith)
    ∙ update_ne q i v (λ e. omega arith)

-- Each word that the loop writes is made of two words before it.
Recurs : (ℕ → ℕ) → (k : ℕ) → Type 0
Recurs q k = q k ≡ bit_xor (bit_xor (bit_xor (q (k - 3)) (q (k - 2))) 0x9e3779b9) k

init_from-Recurs :
    (rounds i : ℕ) (q : ℕ → ℕ) (k : ℕ)
    → 3 ≤ i
    → i ≤ k
    → k < i + rounds
    → Recurs (init_from rounds i q) k
unfolding init_from Recurs
init_from-Recurs zero i q k three le lt = absurd (omega arith)
init_from-Recurs (suc rounds) i q k three le lt =
    let v = bit_xor (bit_xor (bit_xor (q (i - 3)) (q (i - 2))) phi) i in
    let q' = update q i v in
    let r = init_from rounds (suc i) q' in
    elim (Bool-cases (i == k)) [
      | inl e ↦
          let at : i ≡ k = (==_iff i k).0 e in
          let back = λ (j : ℕ) (less : j < i).
            init_from-before rounds (suc i) q' j (omega arith)
            ∙ update_ne q i v {q = j} (λ same. omega arith) in
          let far = back (i - 3) (omega arith) in
          let near = back (i - 2) (omega arith) in
          let here : r i ≡ v =
            init_from-before rounds (suc i) q' i (omega arith) ∙ update_self q i v in
          subst (λ j. r j ≡ bit_xor (bit_xor (bit_xor (r (j - 3)) (r (j - 2))) phi) j) at
            (here
              ∙ ap (λ w. bit_xor (bit_xor (bit_xor w (q (i - 2))) phi) i) (sym far)
              ∙ ap (λ w. bit_xor (bit_xor (bit_xor (r (i - 3)) w) phi) i) (sym near))
      | inr e ↦ init_from-Recurs rounds (suc i) q' k (omega arith) (ground arith) (omega arith)
    ]

-- The words that the generator starts with.
pub record Seeded (x : ℕ) (q : ℕ → ℕ) : Type 0 where
  pub first : q 0 ≡ x
  pub second : q 1 ≡ (x + 0x9e3779b9) % 2 ^ 32
  pub third : q 2 ≡ (x + 2 * 0x9e3779b9) % 2 ^ 32
  pub later :
      (k : ℕ)
      → 3 ≤ k
      → k < 4096
      → q k ≡ bit_xor (bit_xor (bit_xor (q (k - 3)) (q (k - 2))) 0x9e3779b9) k

-- `init_rand` of a 32-bit number writes it and two sums to the first three words, and each later one
-- from its index and the words three and two before it as they stand in the end; and the state after
-- any number of calls of `rand` is valid.
pub init_rand-Seeded :
    (x n : ℕ)
    → x < 2 ^ 32
    → Seeded x (init_rand x initial).q × IsValid (state_after n (init_rand x initial))
unfolding init_rand Recurs
init_rand-Seeded x n lt =
    let q = seed x initial.q in
    (
      record {
        first = init_from-before 4093 3 q 0 (omega arith);
        second = init_from-before 4093 3 q 1 (omega arith);
        third = init_from-before 4093 3 q 2 (omega arith) ∙ (omega arith);
        later = λ k three less. init_from-Recurs 4093 3 q k (omega arith) three (omega arith);
      },
      state_after-IsValid n (init_rand x initial) (
          init_rand-IsValid x initial lt
            (record { word = λ k. omega arith; carry = omega arith; index = omega arith })),
    )
