-- ===== src/Pci/Address.antt =====
-- The addresses of configuration registers.
use piggy_os.Base.{ℕ, ◌+◌, ◌*◌, ◌/◌, ◌^◌, ◌<◌, ◌≡◌, ◌≢◌, refl, ap, ◌∙◌, arith, bit_and, bit_or, u32}
use piggy_os.Base.Bits.{bit, bit_and-high_mask, bit_or-fields, bit_or_comm, bit-bit_or, bit-zero}
use piggy_os.Pci.{read_address, write_address}

-- The address of a register has its fields one behind the other, and the bit that enables it.
pub read_address-fields :
    (bus slot func offset : ℕ)
    → bus < 256
    → slot < 32
    → func < 8
    → offset < 256
    → read_address bus slot func offset
      ≡ 2 ^ 31 + bus * 2 ^ 16 + slot * 2 ^ 11 + func * 2 ^ 8 + offset / 4 * 4
unfolding read_address
read_address-fields bus slot func offset a b c d =
    let low : bit_and offset 0xfc ≡ offset / 4 * 4 = bit_and-high_mask 2 6 offset d in
    let r = offset / 4 * 4 in
    let one : bit_or (bus * 2 ^ 16) (slot * 2 ^ 11) ≡ (bus * 32 + slot) * 2 ^ 11 =
      bit_or-fields 16 bus (slot * 2 ^ 11) (omega arith) ∙ omega arith in
    let two : bit_or ((bus * 32 + slot) * 2 ^ 11) (func * 2 ^ 8)
        ≡ ((bus * 32 + slot) * 8 + func) * 2 ^ 8 =
      bit_or-fields 11 (bus * 32 + slot) (func * 2 ^ 8) (omega arith) ∙ omega arith in
    let three : bit_or (((bus * 32 + slot) * 8 + func) * 2 ^ 8) r
        ≡ ((bus * 32 + slot) * 8 + func) * 2 ^ 8 + r =
      bit_or-fields 8 ((bus * 32 + slot) * 8 + func) r (omega arith) in
    let s = ((bus * 32 + slot) * 8 + func) * 2 ^ 8 + r in
    let four : bit_or s 0x80000000 ≡ 2 ^ 31 + s =
      bit_or_comm 32 s 0x80000000 (omega arith) (omega arith)
      ∙ bit_or-fields 31 1 s (omega arith) in
    rw low (rw one (rw two (rw three (rw four (omega arith)))))

high_bit : (x : ℕ) → bit_or x 0x80000000 ≢ 0
unfolding bit
high_bit x e =
    let one : bit 0x80000000 31 ≡ 1 = refl in
    let set = bit-bit_or x 0x80000000 31 in
    let clear : bit (bit_or x 0x80000000) 31 ≡ 0 = ap (λ t. bit t 31) e ∙ bit-zero 31 in
    ground (arith, one, set, clear)

-- The address that `pci_write_word` writes is 1, whatever the register is.
pub write_address-one : (bus slot func offset : ℕ) → write_address bus slot func offset ≡ 1
unfolding write_address
write_address-one bus slot func offset = ground (
  arith,
  high_bit (bit_or (bit_or (u32 (slot * 2 ^ 11)) (u32 (func * 2 ^ 8))) (bit_and offset 0xfc)),
)
