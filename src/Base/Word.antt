-- ===== src/Base/Word.antt =====
-- Unsigned 32-bit arithmetic of C: a value is a number below `2 ^ 32`, and every operation wraps.
use Prim.Native.Nat.{ℕ, ◌+◌, ◌-◌, ◌*◌, ◌%◌, ◌^◌}

abbrev pub u32 : ℕ → ℕ
u32 n = n % 2 ^ 32

abbrev pub u16 : ℕ → ℕ
u16 n = n % 2 ^ 16

abbrev pub u8 : ℕ → ℕ
u8 n = n % 2 ^ 8

abbrev pub add32 : ℕ → ℕ → ℕ
add32 a b = (a + b) % 2 ^ 32

-- `-` on ℕ stops at 0, so the modulus is added first.
abbrev pub sub32 : ℕ → ℕ → ℕ
sub32 a b = (a + 2 ^ 32 - b) % 2 ^ 32

abbrev pub mul32 : ℕ → ℕ → ℕ
mul32 a b = a * b % 2 ^ 32
