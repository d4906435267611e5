-- ===== src/Base/Count.antt =====
-- Counting the numbers below a bound that pass a test.
use Prim.Native.Nat.{ℕ, zero, suc, ◌+◌, ◌≤◌, ◌<◌}
use mathlib.Core.Path.{◌≡◌, refl}
use mathlib.Core.Logic.{◌≢◌, ◌⊎◌, inl, inr}
use mathlib.Core.Bool.{Bool, true, false}
use native.Mathlib.Omega.{arith}
use piggy_os.Base.Tests.{◌==◌, Bool-cases, if◌then◌else◌}

-- How many `k < n` have `p k ≡ true`.
unfoldable pub count : (ℕ → Bool) → ℕ → ℕ
count p zero = 0
count p (suc n) = (if p n then 1 else 0) + count p n

pub count-le : (p : ℕ → Bool) (n : ℕ) → count p n ≤ n
unfolding count
count-le p zero = omega arith
count-le p (suc n) = ground (arith, count-le p n)

-- Only the values below the bound matter.
pub count_ext : (p q : ℕ → Bool) (n : ℕ) → ((k : ℕ) → k < n → p k ≡ q k) → count p n ≡ count q n
unfolding count
count_ext p q zero h = refl
count_ext p q (suc n) h =
    ground (arith, h n (omega arith), count_ext p q n (λ k lt. h k (omega arith)))

-- Turning one test below the bound from false to true adds one.
pub count_turn :
    (p q : ℕ → Bool) (b n : ℕ)
    → ((k : ℕ) → b ≢ k → q k ≡ p k)
    → p b ≡ false
    → q b ≡ true
    → b < n
    → count q n ≡ 1 + count p n
unfolding count
count_turn p q b zero h e f lt = absurd (omega arith)
count_turn p q b (suc n) h e f lt = elim (cases b n) [
  | inl same ↦ ground (arith, count_ext q p n (λ k lt'. h k (omega arith)))
  | inr ne ↦ ground (arith, h n ne, count_turn p q b n h e f (omega arith))
]
  where
    cases : (a c : ℕ) → (a ≡ c) ⊎ (a ≢ c)
    cases a c = grind arith

-- A count below the bound leaves a number that fails the test.
pub count_all : (p : ℕ → Bool) (n : ℕ) → ((k : ℕ) → k < n → p k ≡ true) → count p n ≡ n
unfolding count
count_all p zero h = refl
count_all p (suc n) h = ground (arith, h n (omega arith), count_all p n (λ k lt. h k (omega arith)))

pub count_none : (p : ℕ → Bool) (n : ℕ) → ((k : ℕ) → k < n → p k ≡ false) → count p n ≡ 0
unfolding count
count_none p zero h = refl
count_none p (suc n) h =
    ground (arith, h n (omega arith), count_none p n (λ k lt. h k (omega arith)))

pub count_lt : (p : ℕ → Bool) (b n : ℕ) → p b ≡ false → b < n → count p n < n
unfolding count
count_lt p b zero e lt = absurd (omega arith)
count_lt p b (suc n) e lt = elim (Bool-cases (b == n)) [
  | inl same ↦ let last : p n ≡ false = ground arith in ground (arith, count-le p n)
  | inr ne ↦ ground (arith, count_lt p b n e (ground arith))
]

-- A full count leaves no number below the bound that fails the test.
pub all_of_count : (p : ℕ → Bool) (n : ℕ) → count p n ≡ n → (k : ℕ) → k < n → p k ≡ true
all_of_count p n full k lt = elim (Bool-cases (p k)) [
  | inl e ↦ e
  | inr e ↦ absurd (omega (arith, count_lt p k n e lt))
]
