-- ===== src/Descriptors.antt =====
-- kernel/cpu/gdt.c and kernel/cpu/idt.c: the descriptor tables. The instructions that load a table,
-- and the writes that set up the interrupt controllers, are not modelled.
pub mod Fields
pub mod Vectors
mod Tests
use piggy_os.Base.{
  ℕ, zero, suc, ◌+◌, ◌-◌, ◌*◌, ◌/◌, ◌%◌, ◌^◌, bit_and, bit_or, Bool, true, false, ◌==◌,
  if◌then◌else◌, update,
}

-- `gdt_descr_t` and `idt_descr_t`
pub record GdtDescr : Type 0 where
  pub limit_low : ℕ
  pub base_low : ℕ
  pub base_middle : ℕ
  pub access : ℕ
  pub granularity : ℕ
  pub base_high : ℕ

pub record IdtDescr : Type 0 where
  pub base_low : ℕ
  pub seg_sel : ℕ
  pub zeros : ℕ
  pub flags : ℕ
  pub base_high : ℕ

abbrev pub Gdt : Type 0
Gdt = ℕ → GdtDescr

abbrev pub Idt : Type 0
Idt = ℕ → IdtDescr

-- `x & 0xFFFF` and `x & 0xFF` are remainders, `x >> k` a division.
unfoldable pub gdt_set_descr : (index base limit access granularity : ℕ) → Gdt → Gdt
gdt_set_descr index base limit access granularity gdt = update gdt index (record {
  limit_low = limit % 2 ^ 16;
  base_low = base % 2 ^ 16;
  base_middle = base / 2 ^ 16 % 2 ^ 8;
  access = access;
  granularity = bit_or (bit_and (limit / 2 ^ 16) 0x0F) (bit_and granularity 0xF0);
  base_high = base / 2 ^ 24 % 2 ^ 8;
})

unfoldable pub gdt_init : Gdt → Gdt
unfolding gdt_set_descr
gdt_init gdt = gdt_set_descr 4 0 0xFFFFFFFF 0xF2 0xCF (
    gdt_set_descr 3 0 0xFFFFFFFF 0xFA 0xCF (
      gdt_set_descr 2 0 0xFFFFFFFF 0x92 0xCF
        (gdt_set_descr 1 0 0xFFFFFFFF 0x9A 0xCF (gdt_set_descr 0 0 0 0 0 gdt))))

unfoldable pub idt_set_descr : (num base flags : ℕ) → Idt → Idt
idt_set_descr num base flags idt = update idt num (record {
  base_low = base % 2 ^ 16;
  base_high = base / 2 ^ 16 % 2 ^ 16;
  seg_sel = 0x08;
  zeros = 0;
  flags = flags;
})

abbrev pub clear_descr : IdtDescr
clear_descr = record { base_low = 0; seg_sel = 0; zeros = 0; flags = 0; base_high = 0 }

-- `idt_set_descr(num, &stub, 0x8E)` of the `n` vectors from `num` on. `stub num` is the address of
-- the stub of a vector, `isr` or `irq` with its number, in kernel/cpu/interrupt.asm.
pub set_from : (n num : ℕ) → (stub : ℕ → ℕ) → Idt → Idt
set_from zero num stub idt = idt
set_from (suc n) num stub idt = set_from n (suc num) stub (idt_set_descr num (stub num) 0x8E idt)

-- Vectors 0 to 31, 127, and 32 to 47, in this order, in a table that is cleared before.
unfoldable pub idt_init : (stub : ℕ → ℕ) → Idt → Idt
unfolding set_from idt_set_descr
idt_init stub idt =
    set_from 16 32 stub (idt_set_descr 127 (stub 127) 0x8E (set_from 32 0 stub (λ _. clear_descr)))
