-- ===== src/Base/Bits/Step.antt =====
-- How `&`, `|` and `^` act on the last binary digit: the library defines them by a recursion on
-- the digits that takes fuel, and no more of it than the left operand is ever used.
use Prim.Native.Nat.{
  ℕ, zero, suc, ◌+◌, ◌*◌, ◌/◌, ◌%◌, ◌≤◌, ◌<◌, min, max, digits, bitwise, bit_and, bit_or, bit_xor,
}
use Prim.Native.Nat.{bit_and-bitwise, bit_or-bitwise, bit_xor-bitwise, differ}
use mathlib.Core.Path.{◌≡◌, refl}
use native.Mathlib.Omega.{arith}

module _ (last : ℕ → ℕ) (on_digits : ℕ → ℕ → ℕ) where
  abbrev run : ℕ → ℕ → ℕ → ℕ
  run fuel left right = digits last on_digits fuel left right

  spare_fuel :
      (right left few many : ℕ) → left ≤ few → few ≤ many → run many left right ≡ run few left right
  spare_fuel right zero zero zero h k = refl
  spare_fuel right zero zero (suc many) h k = refl
  spare_fuel right zero (suc few) (suc many) h k = refl
  spare_fuel right (suc left) (suc few) (suc many) h k =
      let half = spare_fuel (right / 2) (suc left / 2) few many (omega arith) (omega arith) in
      rw half refl
  spare_fuel right left (suc few) zero h k = absurd (omega arith)
  spare_fuel right (suc left) zero many h k = absurd (omega arith)

  last_digit :
      (left right : ℕ)
      → bitwise last on_digits (suc left) right
        ≡ bitwise last on_digits (suc left / 2) (right / 2) * 2
          + on_digits (suc left % 2) (right % 2)
  last_digit left right =
      let spare =
        spare_fuel (right / 2) (suc left / 2) (suc left / 2) left (omega arith) (omega arith) in
      omega (arith, spare)

pub bit_and_step : (x y : ℕ) → bit_and x y ≡ bit_and (x / 2) (y / 2) * 2 + min (x % 2) (y % 2)
bit_and_step zero y = simp bit_and-bitwise (omega arith)
bit_and_step (suc x) y = simp bit_and-bitwise (last_digit (λ _. 0) min x y)

pub bit_or_step : (x y : ℕ) → bit_or x y ≡ bit_or (x / 2) (y / 2) * 2 + max (x % 2) (y % 2)
bit_or_step zero y = simp bit_or-bitwise (omega arith)
bit_or_step (suc x) y = simp bit_or-bitwise (last_digit (λ rest. rest) max x y)

differ-digits : (x y : ℕ) → x < 2 → y < 2 → differ x y ≡ (x + y) % 2
differ-digits zero zero p q = refl
differ-digits zero (suc zero) p q = refl
differ-digits (suc zero) zero p q = refl
differ-digits (suc zero) (suc zero) p q = refl
differ-digits (suc (suc x)) y p q = absurd (omega arith)
differ-digits zero (suc (suc y)) p q = absurd (omega arith)
differ-digits (suc zero) (suc (suc y)) p q = absurd (omega arith)

pub bit_xor_step : (a b : ℕ) → bit_xor a b ≡ bit_xor (a / 2) (b / 2) * 2 + (a % 2 + b % 2) % 2
bit_xor_step zero b = simp bit_xor-bitwise (omega arith)
bit_xor_step (suc a) b = simp bit_xor-bitwise (
    omega (
      arith,
      last_digit (λ y. y) differ a b,
      differ-digits (suc a % 2) (b % 2) (omega arith) (omega arith),
    ))
