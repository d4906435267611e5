-- ===== src/Printing/Itoa.antt =====
-- `__itoa` and `__itoa_s`: what the loops leave in memory.
use piggy_os.Base.{
  ℕ, zero, suc, ◌+◌, ◌-◌, ◌/◌, ◌%◌, ◌^◌, ◌≤◌, ◌<◌, ◌≡◌, ◌≢◌, ◌⊎◌, refl, ap, ◌∙◌, List, [], ◌∷◌,
  ◌++◌, arith, some, ◌==◌, length, length-append, Bool-cases, le→ltb, leb, sub32, inl, inr, update,
  update_ne, update_self, then_with,
}
use native.Mathlib.Nat.{pow-le-pow_left}
use piggy_os.Printing.{Chars, digit_loop, copy_loop, itoa, itoa_s}
use piggy_os.Strings.Compare.{HasString}
use piggy_os.Printing.Digits.{
  figure, figures, numeral, signed_numeral, read_from, half, mod-small, figure_value-figure,
  numeral-read_from, length-numeral, numerals-fit,
}

-- A list of digits stands in `tbuf` from index `pos` on, backwards.
abbrev Backwards : Chars → (pos : ℕ) → List ℕ → Type 0
Backwards t pos [] = Unit
Backwards t pos (d ∷ ds) = (t (pos + length ds) ≡ d) × Backwards t pos ds

Backwards-snoc :
    (t : Chars) (pos d : ℕ) (ds : List ℕ)
    → t pos ≡ d
    → Backwards t (pos + 1) ds
    → Backwards t pos (ds ++ (d ∷ []))
Backwards-snoc t pos d [] e b = (ground arith, tt)
Backwards-snoc t pos d (c ∷ ds) e b =
    (ap t (omega (arith, length-append ds (d ∷ []))) ∙ b.0, Backwards-snoc t pos d ds e b.1)

abbrev All : (ℕ → Type 0) → List ℕ → Type 0
All P [] = Unit
All P (d ∷ ds) = P d × All P ds

All-snoc : (P : ℕ → Type 0) (d : ℕ) (ds : List ℕ) → P d → All P ds → All P (ds ++ (d ∷ []))
All-snoc P d [] p a = (p, tt)
All-snoc P d (c ∷ ds) p a = (a.0, All-snoc P d ds p a.1)

-- What the division loop leaves behind.
record Divided (pos : ℕ) (ds : List ℕ) (old new : Chars) : Type 0 where
  backwards : Backwards new pos ds
  real : All (λ d. d ≢ 0) ds
  below : (j : ℕ) → j < pos → new j ≡ old j

digit_loop-Divided :
    (fuel base i pos : ℕ) (t : Chars)
    → 2 ≤ base
    → base ≤ 16
    → i < 2 ^ fuel
    → (t' : Chars) × (digit_loop (suc fuel) i base pos t
        ≡ some (pos + length (figures fuel base i), t'))
      × Divided pos (figures fuel base i) t t'
unfolding digit_loop figures
digit_loop-Divided zero base i pos t lo hi h =
    (t, ground arith, record { backwards = tt; real = tt; below = λ j lt. refl })
digit_loop-Divided (suc fuel) base i pos t lo hi h = elim (Bool-cases (i == 0)) [
  | inl e ↦ rw e (t, ground arith, record { backwards = tt; real = tt; below = λ j lt. refl })
  | inr e ↦
      let fig = figure (i % base) in
      let rest =
        digit_loop-Divided fuel base (i / base) (pos + 1) (update t pos fig) lo hi
          (half fuel base i lo h) in
      let ds = figures fuel base (i / base) in
      let at : rest.0 pos ≡ fig = rest.2.below pos (omega arith) ∙ update_self t pos fig in
      rw e (
        rest.0,
        rest.1 ∙ ap (λ (n : ℕ). some (n, rest.0)) (omega (arith, length-append ds (fig ∷ []))),
        record {
          backwards = Backwards-snoc rest.0 pos fig ds at rest.2.backwards;
          real =
              All-snoc (λ d. d ≢ 0) fig ds
                (figure_value-figure (i % base) (mod-small i base lo hi)).1 rest.2.real;
          below = λ j lt. rest.2.below j (omega arith) ∙ update_ne t pos fig (omega arith);
        },
      )
]

-- The string `ds` stands at `buf`, and all other memory is as it was.
pub record Copied (buf : ℕ) (ds : List ℕ) (old new : Chars) : Type 0 where
  pub stored : HasString new buf ds
  pub before : (j : ℕ) → j < buf → new j ≡ old j
  pub behind : (j : ℕ) → buf + length ds < j → new j ≡ old j

copy_loop-Copied :
    (t : Chars) (ds : List ℕ) (buf opos pos at : ℕ) (mem : Chars)
    → at ≡ buf + opos
    → pos ≡ length ds - 1
    → Backwards t 0 ds
    → All (λ d. d ≢ 0) ds
    → Copied at ds mem (copy_loop (length ds) opos pos t buf mem)
unfolding copy_loop
copy_loop-Copied t [] buf opos pos at mem e f b a = record {
  stored = ground arith;
  before = λ j lt. ground arith;
  behind = λ j lt. ground arith;
}
copy_loop-Copied t (d ∷ ds) buf opos pos at mem e f b a =
    let first : t pos ≡ d = ap t (omega arith) ∙ b.0 in
    let mem' = update mem (buf + opos) (t pos) in
    let rest =
      copy_loop-Copied t ds buf (opos + 1) (pos - 1) (at + 1) mem' (omega arith) (omega arith) b.1
        a.1 in
    let here : mem' at ≡ d = ap mem' e ∙ update_self mem (buf + opos) (t pos) ∙ first in
    record {
      stored = (rest.before at (omega arith) ∙ here, a.0, rest.stored);
      before =
          λ j lt. rest.before j (omega arith) ∙ update_ne mem (buf + opos) (t pos) (omega arith);
      behind =
          λ j lt. rest.behind j (omega arith) ∙ update_ne mem (buf + opos) (t pos) (omega arith);
    }

-- `itoa` of a 32-bit number in a base from 2 to 16 ends within 33 rounds; it writes the numeral as
-- a string at `buf`, and to no other address.
pub itoa-Copied :
    (i base buf : ℕ) (tbuf mem : Chars)
    → 2 ≤ base
    → base ≤ 16
    → i < 2 ^ 32
    → (r : Chars × Chars) × (itoa 33 i base buf tbuf mem ≡ some r)
      × Copied buf (numeral base i) mem r.1
unfolding itoa numeral
itoa-Copied i base buf tbuf mem lo hi h = elim (Bool-cases (i == 0)) [
  | inl e ↦ rw e (
    (tbuf, update (update mem buf b'0') (buf + 1) 0),
    refl,
    record { stored = ground arith; before = λ j lt. ground arith; behind = λ j lt. ground arith },
  )
  | inr e ↦
      let divided = digit_loop-Divided 32 base i 0 tbuf lo hi h in
      let ds = figures 32 base i in
      rw (e, le→ltb 16 base hi)
        (
          (divided.0, copy_loop (length ds) 0 (length ds - 1) divided.0 buf mem),
          ap (λ w. then_with w λ (p : ℕ × Chars). some (p.1, copy_loop p.0 0 (p.0 - 1) p.1 buf mem))
              (divided.1 ∙ ap (λ n. some (n, divided.0)) (omega arith)),
          copy_loop-Copied divided.0 ds buf 0 (length ds - 1) buf mem (omega arith) refl
              divided.2.backwards divided.2.real,
        )
]

-- `itoa_s` does the same with a sign; the least `int` is no exception.
pub itoa_s-Copied :
    (i base buf : ℕ) (tbuf mem : Chars)
    → 2 ≤ base
    → base ≤ 16
    → i < 2 ^ 32
    → (r : Chars × Chars) × (itoa_s 33 i base buf tbuf mem ≡ some r)
      × Copied buf (signed_numeral base i) mem r.1
unfolding itoa_s signed_numeral
itoa_s-Copied i base buf tbuf mem lo hi h = elim (Bool-cases (leb (2 ^ 31) i)) [
  | inl e ↦
      let magnitude : sub32 0 i ≡ 2 ^ 32 - i = ground arith in
      let rest =
        itoa-Copied (2 ^ 32 - i) base (buf + 1) tbuf (update mem buf b'-') lo hi (ground arith) in
      rw (le→ltb 16 base hi, e, magnitude)
        (
          rest.0,
          rest.1,
          record {
            stored = (
              rest.2.before buf (omega arith) ∙ update_self mem buf b'-',
              omega arith,
              rest.2.stored,
            );
            before = λ j lt. rest.2.before j (omega arith) ∙ update_ne mem buf b'-' (omega arith);
            behind = λ j lt. rest.2.behind j (omega arith) ∙ update_ne mem buf b'-' (omega arith);
          },
        )
  | inr e ↦ rw (le→ltb 16 base hi, e) (itoa-Copied i base buf tbuf mem lo hi h)
]

-- `itoa` of a 32-bit number in a base from 2 to 16 ends within 33 rounds, and writes a string of at
-- most 32 digits, which are read back to the number, at `buf`; no other address changes.
pub itoa-read_from :
    (i base buf : ℕ) (tbuf mem : Chars)
    → 2 ≤ base
    → base ≤ 16
    → i < 2 ^ 32
    → (r : Chars × Chars) × (ds : List ℕ) × (itoa 33 i base buf tbuf mem ≡ some r)
      × Copied buf ds mem r.1
      × (read_from base 0 ds ≡ i)
      × (length ds ≤ 32)
itoa-read_from i base buf tbuf mem lo hi h =
    let r = itoa-Copied i base buf tbuf mem lo hi h in
    (
      r.0,
      numeral base i,
      r.1,
      r.2,
      numeral-read_from i base lo hi h,
      length-numeral i base 32 (omega arith) (omega arith) (pow-mono i base 32 lo h),
    )
  where
    pow-mono : (n b k : ℕ) → 2 ≤ b → n < 2 ^ k → n < b ^ k
    pow-mono n b k le lt = omega (arith, pow-le-pow_left le k)

-- The conversions that the directives use stay within their 32 bytes: `itoa_s` to the base 10 writes
-- to 12 bytes at most, the sign and the terminator included, and `itoa` to the base 16 to 9.
pub itoa_s-fits :
    (i buf : ℕ) (tbuf mem : Chars)
    → i < 2 ^ 32
    → (r q : Chars × Chars) × (itoa_s 33 i 10 buf tbuf mem ≡ some r)
      × (itoa 33 i 16 buf tbuf mem ≡ some q)
      × ((j : ℕ) → (j < buf) ⊎ (buf + 12 ≤ j) → r.1 j ≡ mem j)
      × ((j : ℕ) → (j < buf) ⊎ (buf + 9 ≤ j) → q.1 j ≡ mem j)
itoa_s-fits i buf tbuf mem h =
    let r = itoa_s-Copied i 10 buf tbuf mem (omega arith) (omega arith) h in
    let q = itoa-Copied i 16 buf tbuf mem (omega arith) (omega arith) h in
    let fit = numerals-fit i h in
    (
      r.0,
      q.0,
      r.1,
      q.1,
      outside buf 12 (signed_numeral 10 i) mem r.0.1 (omega (arith, fit.0)) r.2,
      outside buf 9 (numeral 16 i) mem q.0.1 (omega (arith, fit.1)) q.2,
    )
  where
    outside :
        (buf n : ℕ) (ds : List ℕ) (old new : Chars)
        → length ds < n
        → Copied buf ds old new
        → (j : ℕ) → (j < buf) ⊎ (buf + n ≤ j)
        → new j ≡ old j
    outside buf n ds old new lt c j (inl b) = c.before j b
    outside buf n ds old new lt c j (inr b) = c.behind j (omega arith)
