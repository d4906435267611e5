-- ===== src/Rand/Step.antt =====
-- One step of the generator is a multiply-with-carry step to the base `2 ^ 32 - 1`.
use piggy_os.Base.{
  ℕ, ◌+◌, ◌-◌, ◌*◌, ◌%◌, ◌^◌, ◌<◌, ◌≤◌, ◌≡◌, ◌≢◌, refl, arith, add32, sub32, update_self, update_ne,
}
use piggy_os.Rand.{Rand, multiplier, product, carried, rand}

-- Words of 32 bits, a carry of at most the first one, and an index of the table.
pub record IsValid (s : Rand) : Type 0 where
  pub word : (k : ℕ) → s.q k < 2 ^ 32
  pub carry : s.c ≤ 362436
  pub index : s.i < 4096

-- The carry and the rest are quotient and rest of the product; the rest may be the base itself.
carried_lem :
    (word carry : ℕ)
    → word < 2 ^ 32
    → carry ≤ 362436
    → let (c, x) = carried (product word carry) in
      (c * (2 ^ 32 - 1) + x ≡ multiplier * word + carry) × (c ≤ 362436) × (x < 2 ^ 32)
carried_lem word carry w k = ground arith

-- The index of the word that the next step uses.
abbrev pub next_index : Rand → ℕ
next_index s = add32 s.i 1 % 4096

-- What one step does: with `b` for `2 ^ 32 - 1`, the word at the next index times the multiplier plus
-- the carry is divided by `b`; the quotient is the new carry, and `b - 1` minus the rest (modulo
-- `2 ^ 32`) is the answer, which replaces that word alone.
pub record Stepped (s : Rand) (r : ℕ) (s' : Rand) : Type 0 where
  pub division :
      (x : ℕ) × (x < 2 ^ 32)
      × (s'.c * (2 ^ 32 - 1) + x ≡ multiplier * s.q (next_index s) + s.c)
      × (r ≡ sub32 (2 ^ 32 - 2) x)
  pub index : s'.i ≡ next_index s
  pub stored : s'.q s'.i ≡ r
  pub others : (k : ℕ) → next_index s ≢ k → s'.q k ≡ s.q k

-- One call of `rand` in a valid state is such a step, and leaves a valid state.
pub rand-Stepped : (s : Rand) → IsValid s → let (r, s') = rand s in Stepped s r s' × IsValid s'
unfolding rand
rand-Stepped s v =
    let i = next_index s in
    let (c, x) = carried (product (s.q i) s.c) in
    let step = carried_lem (s.q i) s.c (v.word i) v.carry in
    let r = sub32 0xfffffffe x in
    (
      record {
        division = (x, step.2, step.0, refl);
        index = refl;
        stored = update_self s.q i r;
        others = λ k ne. update_ne s.q i r ne;
      },
      record { word = λ k. ground (arith, v.word k); carry = step.1; index = omega arith },
    )
