-- ===== src/Descriptors/Fields.antt =====
-- What the processor reads from a descriptor is what it was made of.
use piggy_os.Base.{
  ℕ, ◌+◌, ◌*◌, ◌/◌, ◌%◌, ◌^◌, ◌<◌, ◌≡◌, ◌≢◌, ap, ◌∙◌, bit_and, bit_or, arith, update, update_self,
  update_ne,
}
use piggy_os.Base.Bits.{bit_and-mask, bit_and-high_mask, bit_or-fields, bit_or_comm}
use piggy_os.Descriptors.{Gdt, GdtDescr, gdt_set_descr}

-- The base address, the limit and the flags as the processor puts them together.
abbrev pub base_of : GdtDescr → ℕ
base_of d = d.base_low + d.base_middle * 2 ^ 16 + d.base_high * 2 ^ 24

abbrev pub limit_of : GdtDescr → ℕ
limit_of d = d.limit_low + d.granularity % 2 ^ 4 * 2 ^ 16

abbrev pub flags_of : GdtDescr → ℕ
flags_of d = d.granularity / 2 ^ 4

granularity_fields :
    (limit granularity : ℕ)
    → granularity < 2 ^ 8
    → bit_or (bit_and (limit / 2 ^ 16) 0x0F) (bit_and granularity 0xF0)
      ≡ granularity / 2 ^ 4 * 2 ^ 4 + limit / 2 ^ 16 % 2 ^ 4
granularity_fields limit granularity h =
    let low : bit_and (limit / 2 ^ 16) 0x0F ≡ limit / 2 ^ 16 % 2 ^ 4 =
      bit_and-mask 4 (limit / 2 ^ 16) in
    let high : bit_and granularity 0xF0 ≡ granularity / 2 ^ 4 * 2 ^ 4 =
      bit_and-high_mask 4 4 granularity h in
    let l = limit / 2 ^ 16 % 2 ^ 4 in
    let g = granularity / 2 ^ 4 * 2 ^ 4 in
    rw low (
      rw high (
        bit_or_comm 8 l g (omega arith) (omega arith)
        ∙ bit_or-fields 4 (granularity / 2 ^ 4) l (omega arith)))

-- The base of a descriptor that `gdt_set_descr` wrote is the base asked for, the limit the low 20
-- bits of the limit asked for, and the flags the high four bits of the granularity; the other
-- descriptors stay as they were.
pub gdt_set_descr-fields :
    (index base limit access granularity : ℕ) (gdt : Gdt)
    → base < 2 ^ 32
    → granularity < 2 ^ 8
    → let gdt' = gdt_set_descr index base limit access granularity gdt in
      (base_of (gdt' index) ≡ base)
      × (limit_of (gdt' index) ≡ limit % 2 ^ 20)
      × (flags_of (gdt' index) ≡ granularity / 2 ^ 4)
      × ((gdt' index).access ≡ access)
      × ((k : ℕ) → index ≢ k → gdt' k ≡ gdt k)
unfolding gdt_set_descr
gdt_set_descr-fields index base limit access granularity gdt h k =
    let g = granularity_fields limit granularity k in
    let d : GdtDescr = record {
      limit_low = limit % 2 ^ 16;
      base_low = base % 2 ^ 16;
      base_middle = base / 2 ^ 16 % 2 ^ 8;
      access = access;
      granularity = bit_or (bit_and (limit / 2 ^ 16) 0x0F) (bit_and granularity 0xF0);
      base_high = base / 2 ^ 24 % 2 ^ 8;
    } in
    let at : update gdt index d index ≡ d = update_self gdt index d in
    (
      ap base_of at ∙ omega arith,
      ap limit_of at ∙ omega (arith, g),
      ap flags_of at ∙ omega (arith, g),
      ap (λ (e : GdtDescr). e.access) at,
      λ k ne. update_ne gdt index d ne,
    )
