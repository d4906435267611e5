-- ===== src/Descriptors/Tests.antt =====
-- Runs of the descriptor tables.
use piggy_os.Base.{ℕ, ◌+◌, ◌*◌, ◌≡◌, ◌≢◌, arith, if◌then◌else◌}
use piggy_os.Descriptors.{Gdt, clear_descr, gdt_set_descr, idt_init}
use piggy_os.Descriptors.Fields.{base_of, limit_of, flags_of, gdt_set_descr-fields}
use piggy_os.Descriptors.Vectors.{gate, installed, idt_init-gate}

abbrev blank_gdt : Gdt
blank_gdt _ = record {
  limit_low = 0;
  base_low = 0;
  base_middle = 0;
  access = 0;
  granularity = 0;
  base_high = 0;
}

gdt_set_descr-fields_example :
    let gdt' = gdt_set_descr 5 0xC0123456 0xFFFFFFFF 0xE9 0xCF blank_gdt in
    (base_of (gdt' 5) ≡ 0xC0123456)
    × (limit_of (gdt' 5) ≡ 0xFFFFF)
    × (flags_of (gdt' 5) ≡ 12)
    × ((gdt' 5).access ≡ 0xE9)
    × ((k : ℕ) → 5 ≢ k → gdt' k ≡ blank_gdt k)
gdt_set_descr-fields_example =
    gdt_set_descr-fields 5 0xC0123456 0xFFFFFFFF 0xE9 0xCF blank_gdt (omega arith) (omega arith)

idt_init-gate_run :
    idt_init (λ n. 0xC0100000 + 16 * n) (λ _. clear_descr) 33
    ≡ (if installed 33 then gate (0xC0100000 + 16 * 33) else clear_descr)
idt_init-gate_run = idt_init-gate (λ n. 0xC0100000 + 16 * n) (λ _. clear_descr) 33
