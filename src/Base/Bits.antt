-- ===== src/Base/Bits.antt =====
-- Bits of a number, and what `&`, `|`, `^` and `~` of C do to them.
mod Step
use Step.{bit_or_step, bit_and_step, bit_xor_step}
use Prim.Native.Nat.{ℕ, zero, suc, ◌+◌, ◌-◌, ◌*◌, ◌/◌, ◌%◌, ◌^◌, ◌≤◌, ◌<◌, min, max}
use Prim.Native.Nat.{bit_and, bit_or, bit_xor, bit_and-bitwise}
use mathlib.Core.Path.{◌≡◌, refl, ap, sym, ◌∙◌}
use mathlib.Core.Logic.{◌≢◌, inl, inr}
use mathlib.Core.Bool.{not}
use native.Mathlib.Nat.{
  pow-suc, one-le-pow, mod-lt, mod-eq_of_lt, div-add-mod, mul-add-mod_self_right,
}
use native.Mathlib.Nat.{div-div-eq-div-mul, pow-succ'}
use native.Mathlib.Omega.{arith}
use piggy_os.Base.Tests.{◌==◌, if◌then◌else◌, Bool-cases}

-- Bit `k` of `a`, 0 or 1.
unfoldable pub bit : ℕ → ℕ → ℕ
bit a zero = a % 2
bit a (suc k) = bit (a / 2) k

pub bit_lt : (a k : ℕ) → bit a k < 2
unfolding bit
bit_lt a zero = omega arith
bit_lt a (suc k) = bit_lt (a / 2) k

pub bit-bit_and : (a b k : ℕ) → bit (bit_and a b) k ≡ min (bit a k) (bit b k)
unfolding bit
bit-bit_and a b zero = omega (arith, bit_and_step a b)
bit-bit_and a b (suc k) =
    ap (λ t. bit t k) (omega (arith, bit_and_step a b)) ∙ bit-bit_and (a / 2) (b / 2) k

pub bit-bit_or : (a b k : ℕ) → bit (bit_or a b) k ≡ max (bit a k) (bit b k)
unfolding bit
bit-bit_or a b zero = omega (arith, bit_or_step a b)
bit-bit_or a b (suc k) =
    ap (λ t. bit t k) (omega (arith, bit_or_step a b)) ∙ bit-bit_or (a / 2) (b / 2) k

pub bit-bit_xor : (a b k : ℕ) → bit (bit_xor a b) k ≡ (bit a k + bit b k) % 2
unfolding bit
bit-bit_xor a b zero = omega (arith, bit_xor_step a b)
bit-bit_xor a b (suc k) =
    ap (λ t. bit t k) (omega (arith, bit_xor_step a b)) ∙ bit-bit_xor (a / 2) (b / 2) k

pub bit-zero : (k : ℕ) → bit 0 k ≡ 0
unfolding bit
bit-zero zero = refl
bit-zero (suc k) = bit-zero k

pub bit-two_pow : (j k : ℕ) → bit (2 ^ j) k ≡ (if j == k then 1 else 0)
unfolding bit
bit-two_pow zero zero = refl
bit-two_pow zero (suc k) = bit-zero k ∙ ground arith
bit-two_pow (suc j) zero = ground (arith, pow-suc 2 j)
bit-two_pow (suc j) (suc k) =
    ap (λ t. bit t k) (omega (arith, pow-suc 2 j)) ∙ bit-two_pow j k ∙ ground arith

-- `~a` of a `w`-bit word.
pub bit-complement : (w a k : ℕ) → a < 2 ^ w → k < w → bit (2 ^ w - 1 - a) k ≡ 1 - bit a k
unfolding bit
bit-complement zero a k h lt = absurd (omega arith)
bit-complement (suc w) a zero h lt = omega (arith, pow-suc 2 w, one-le-pow w 2)
bit-complement (suc w) a (suc k) h lt =
    ap (λ t. bit t k) (omega (arith, pow-suc 2 w, one-le-pow w 2))
    ∙ bit-complement w (a / 2) k (omega (arith, pow-suc 2 w)) (omega arith)

-- A number below `2 ^ w` is its `w` low bits.
pub eq_of_bits : (w a b : ℕ) → a < 2 ^ w → b < 2 ^ w → ((k : ℕ) → k < w → bit a k ≡ bit b k) → a ≡ b
unfolding bit
eq_of_bits zero a b p q h = omega arith
eq_of_bits (suc w) a b p q h = omega (
  arith,
  h 0 (omega arith),
  eq_of_bits w (a / 2) (b / 2) (omega (arith, pow-suc 2 w)) (omega (arith, pow-suc 2 w))
      (λ k lt. h (suc k) (omega arith)),
)

pub bit_and-lt : (w a b : ℕ) → a < 2 ^ w → bit_and a b < 2 ^ w
bit_and-lt zero a b h = omega (arith, bit_and_step a b, bit_and-lt_one a b)
  where
    bit_and-lt_one : (x y : ℕ) → x < 1 → bit_and x y ≡ 0
    bit_and-lt_one zero y p = bit_and-bitwise 0 y
    bit_and-lt_one (suc x) y p = absurd (omega arith)
bit_and-lt (suc w) a b h = omega (
  arith,
  bit_and_step a b,
  pow-suc 2 w,
  bit_and-lt w (a / 2) (b / 2) (omega (arith, pow-suc 2 w)),
)

pub bit_or-lt : (w a b : ℕ) → a < 2 ^ w → b < 2 ^ w → bit_or a b < 2 ^ w
bit_or-lt zero a b h k = omega (arith, low a b (omega arith) (omega arith))
  where
    low : (x y : ℕ) → x < 1 → y < 1 → bit_or x y ≡ 0
    low zero zero p q = refl
    low zero (suc y) p q = absurd (omega arith)
    low (suc x) y p q = absurd (omega arith)
bit_or-lt (suc w) a b h k = omega (
  arith,
  bit_or_step a b,
  pow-suc 2 w,
  bit_or-lt w (a / 2) (b / 2) (omega (arith, pow-suc 2 w)) (omega (arith, pow-suc 2 w)),
)

pub bit_xor-lt : (w a b : ℕ) → a < 2 ^ w → b < 2 ^ w → bit_xor a b < 2 ^ w
bit_xor-lt zero a b h k = omega (arith, low a b (omega arith) (omega arith))
  where
    low : (x y : ℕ) → x < 1 → y < 1 → bit_xor x y ≡ 0
    low zero zero p q = refl
    low zero (suc y) p q = absurd (omega arith)
    low (suc x) y p q = absurd (omega arith)
bit_xor-lt (suc w) a b h k = omega (
  arith,
  bit_xor_step a b,
  pow-suc 2 w,
  bit_xor-lt w (a / 2) (b / 2) (omega (arith, pow-suc 2 w)) (omega (arith, pow-suc 2 w)),
)

pub two_pow-lt : (j w : ℕ) → j < w → 2 ^ j < 2 ^ w
two_pow-lt j zero h = absurd (omega arith)
two_pow-lt zero (suc w) h = omega (arith, pow-suc 2 w, one-le-pow w 2)
two_pow-lt (suc j) (suc w) h = omega (arith, pow-suc 2 w, pow-suc 2 j, two_pow-lt j w (omega arith))

-- `a | (1 << j)` has bit `j` set and the other bits of `a`.
pub bit-set : (a j k : ℕ) → bit (bit_or a (2 ^ j)) k ≡ (if j == k then 1 else bit a k)
bit-set a j k = ground (arith, bit-bit_or a (2 ^ j) k, bit-two_pow j k, bit_lt a k)

-- `a & ~(1 << j)` on `w`-bit words has bit `j` clear and the other bits of `a`.
pub bit-clear :
    (w a j k : ℕ)
    → j < w
    → k < w
    → bit (bit_and a (2 ^ w - 1 - 2 ^ j)) k ≡ (if j == k then 0 else bit a k)
bit-clear w a j k h lt = ground (
  arith,
  bit-bit_and a (2 ^ w - 1 - 2 ^ j) k,
  bit-complement w (2 ^ j) k (two_pow-lt j w h) lt,
  bit-two_pow j k,
  bit_lt a k,
)

lt-two_pow : (a : ℕ) → a < 2 ^ a
lt-two_pow zero = omega arith
lt-two_pow (suc a) = omega (arith, pow-suc 2 a, lt-two_pow a)

pub bit_and-zero : (a : ℕ) → bit_and a 0 ≡ 0
bit_and-zero a =
    eq_of_bits a (bit_and a 0) 0 (bit_and-lt a a 0 (lt-two_pow a)) (omega (arith, lt-two_pow a))
      λ k h. ground (arith, bit-bit_and a 0 k, bit-zero k)

pub bit_or-zero : (a : ℕ) → bit_or a 0 ≡ a
bit_or-zero a =
    eq_of_bits a (bit_or a 0) a (bit_or-lt a a 0 (lt-two_pow a) (omega (arith, lt-two_pow a)))
      (lt-two_pow a) λ k h. ground (arith, bit-bit_or a 0 k, bit-zero k)

half-two_pow : (k : ℕ) → 2 ^ suc k / 2 ≡ 2 ^ k
half-two_pow k = omega (arith, pow-suc 2 k)

half-mask : (k : ℕ) → (2 ^ suc k - 1) / 2 ≡ 2 ^ k - 1
half-mask k = omega (arith, pow-suc 2 k, one-le-pow k 2)

mul-two_pow : (q k : ℕ) → q * 2 ^ suc k ≡ q * 2 ^ k * 2
mul-two_pow q k = omega (arith, ap (λ (t : ℕ). q * t) (pow-suc 2 k))

half-fields : (q k : ℕ) → q * 2 ^ suc k / 2 ≡ q * 2 ^ k
half-fields q k = omega (arith, mul-two_pow q k)

pub mod-eq_of : (a m q r : ℕ) → a ≡ q * m + r → r < m → a % m ≡ r
mod-eq_of a m q r e h = rw e (rw mul-add-mod_self_right (mod-eq_of_lt h))

pub mod-two_pow_suc : (a k : ℕ) → a % 2 ^ suc k ≡ a / 2 % 2 ^ k * 2 + a % 2
mod-two_pow_suc a k =
    mod-eq_of a (2 ^ suc k) (a / 2 / 2 ^ k) (a / 2 % 2 ^ k * 2 + a % 2)
      (omega (arith, div-add-mod (a / 2) (2 ^ k), mul-two_pow (a / 2 / 2 ^ k) k))
      (omega (arith, mod-lt (a / 2) (one-le-pow k 2 (omega arith)), pow-suc 2 k))

-- `a & (1 << j)` is nonzero exactly if bit `j` is set.
pub bit_and-two_pow : (a j : ℕ) → bit_and a (2 ^ j) ≡ bit a j * 2 ^ j
unfolding bit
bit_and-two_pow a zero = omega (arith, bit_and_step a 1, bit_and-zero (a / 2))
bit_and-two_pow a (suc j) = omega (
  arith,
  bit_and_step a (2 ^ suc j),
  pow-suc 2 j,
  ap (bit_and (a / 2)) (half-two_pow j),
  bit_and-two_pow (a / 2) j,
  mul-two_pow (bit (a / 2) j) j,
)

-- `a & (2^k - 1)` keeps the `k` low bits.
pub bit_and-mask : (k a : ℕ) → bit_and a (2 ^ k - 1) ≡ a % 2 ^ k
bit_and-mask zero a = omega (arith, bit_and-zero a)
bit_and-mask (suc k) a = omega (
  arith,
  bit_and_step a (2 ^ suc k - 1),
  pow-suc 2 k,
  one-le-pow k 2,
  ap (bit_and (a / 2)) (half-mask k),
  bit_and-mask k (a / 2),
  mod-two_pow_suc a k,
)

-- `(q << k) | r` is a sum if `r` fits in `k` bits.
pub bit_or-fields : (k q r : ℕ) → r < 2 ^ k → bit_or (q * 2 ^ k) r ≡ q * 2 ^ k + r
bit_or-fields zero q r h = ground (arith, bit_or-zero q)
bit_or-fields (suc k) q r h = omega (
  arith,
  bit_or_step (q * 2 ^ suc k) r,
  mul-two_pow q k,
  pow-suc 2 k,
  ap (λ t. bit_or t (r / 2)) (half-fields q k),
  bit_or-fields k q (r / 2) (omega (arith, pow-suc 2 k)),
)

-- The test `(w & (1 << j)) == 0` of C.
pub test_bit : (w j : ℕ) → (bit_and w (2 ^ j) == 0) ≡ not (bit w j == 1)
test_bit w j = elim (Bool-cases (bit w j == 1)) [
  | inl e ↦
      let one : bit w j ≡ 1 = ground arith in ground (arith, bit_and-two_pow w j, one-le-pow j 2)
  | inr e ↦
      let zero_bit : bit w j ≡ 0 = ground (arith, bit_lt w j) in ground (arith, bit_and-two_pow w j)
]

ones-mul : (n k : ℕ) → (2 ^ n - 1) * 2 ^ suc k / 2 ≡ (2 ^ n - 1) * 2 ^ k
ones-mul n k = half-fields (2 ^ n - 1) k

-- A mask of `n` ones above `k` zeros rounds a number of `n + k` bits down to a multiple of `2 ^ k`.
pub bit_and-high_mask :
    (k n a : ℕ) → a < 2 ^ n * 2 ^ k → bit_and a ((2 ^ n - 1) * 2 ^ k) ≡ a / 2 ^ k * 2 ^ k
bit_and-high_mask zero n a h =
    ap (bit_and a) (all_ones n) ∙ bit_and-mask n a ∙ mod-eq_of_lt (omega arith) ∙ omega arith
  where
    all_ones : (m : ℕ) → (2 ^ m - 1) * 2 ^ 0 ≡ 2 ^ m - 1
    all_ones m = omega arith
bit_and-high_mask (suc k) n a h = omega (
  arith,
  bit_and_step a ((2 ^ n - 1) * 2 ^ suc k),
  mul-two_pow (2 ^ n - 1) k,
  ap (bit_and (a / 2)) (ones-mul n k),
  bit_and-high_mask k n (a / 2) (omega (arith, mul-two_pow (2 ^ n) k)),
  div-div-eq-div-mul a 2 (2 ^ k),
  ap (λ t. a / t) (pow-succ' 2 k),
  mul-two_pow (a / 2 / 2 ^ k) k,
  ap (λ t. t * 2 ^ suc k) (div-div-eq-div-mul a 2 (2 ^ k) ∙ ap (λ t. a / t) (sym (pow-succ' 2 k))),
)

pub bit_or_comm : (w a b : ℕ) → a < 2 ^ w → b < 2 ^ w → bit_or a b ≡ bit_or b a
bit_or_comm w a b h k =
    eq_of_bits w (bit_or a b) (bit_or b a) (bit_or-lt w a b h k) (bit_or-lt w b a k h)
      λ i lt. ground (arith, bit-bit_or a b i, bit-bit_or b a i)
