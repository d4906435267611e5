-- ===== src/Acpi/Checksum.antt =====
-- `checksum`, and where the tables are read.
use piggy_os.Base.{ℕ, zero, suc, ◌+◌, ◌%◌, ◌^◌, ◌<◌, ◌≡◌, ◌∙◌, arith, u8}
use piggy_os.Strings.{Memory}
use piggy_os.Acpi.{checksum_from, checksum, length_of, higher_half, fadt_size, header_size}

-- The sum of `n` bytes.
abbrev pub sum : (n p : ℕ) → Memory → ℕ
sum zero p mem = 0
sum (suc n) p mem = mem p + sum n (p + 1) mem

checksum_from-sum :
    (n p start : ℕ) (mem : Memory)
    → start < 2 ^ 8
    → checksum_from n p start mem ≡ (start + sum n p mem) % 2 ^ 8
unfolding checksum_from
checksum_from-sum zero p start mem lt = omega arith
checksum_from-sum (suc n) p start mem lt =
    checksum_from-sum n (p + 1) (u8 (start + mem p)) mem (omega arith) ∙ (omega arith)

-- The sum of a table's bytes, modulo 256.
pub checksum-sum :
    (header : ℕ) (mem : Memory)
    → checksum header mem ≡ sum (length_of header mem) header mem % 2 ^ 8
checksum-sum header mem =
    omega (arith, checksum_from-sum (length_of header mem) header 0 mem (omega arith))

-- The size of what the pointers point to is a multiple of 4, so the addition adds nothing.
pub higher_half-same :
    (p : ℕ) → p < 2 ^ 32 → (higher_half fadt_size p ≡ p) × (higher_half header_size p ≡ p)
higher_half-same p lt = (omega arith, omega arith)
