-- ===== src/Acpi/Sleep.antt =====
-- The sleep types, which the tables hold and the code leaves out, and what `shutdown` writes.
use piggy_os.Base.{
  ℕ, zero, suc, ◌+◌, ◌^◌, ◌≡◌, ◌≢◌, ◌⊎◌, inl, inr, refl, Bool, true, false, ◌∷◌, ◌==◌,
  if◌then◌else◌, ne→==, u16, Bool-cases,
}
use piggy_os.Strings.{Memory, word_at}
use piggy_os.Acpi.{
  Acpi, Parsed, Ports, wrote, log, checksum, registers_of, acpi_parse_fadt, acpi_parse_header,
  rsdt_entries, acpi_parse_rsdt, entry_count, header_size, rsdt_failed, switch_on, acpi_init,
  acpi_enable, parse_tables, shutdown, checksum_from, enabling_failed, parsing, rsdp_failed,
  unsupported, higher_half,
}

-- No sleep type is known, and the bit that starts the sleep is, where ACPI mode is possible.
pub record Untyped (a : Acpi) : Type 0 where
  pub slp_typa : a.slp_typa ≡ 0
  pub slp_typb : a.slp_typb ≡ 0
  pub start : (a.sci_en ≡ 0) ⊎ (a.slp_en ≡ 2 ^ 13)

-- A choice between two states that have a property.
either {ℓ} : {A : Type ℓ} (P : A → Type 0) (b : Bool) (x y : A) → P x → P y → P (if b then x else y)
either P true x y p q = p
either P false x y p q = q

record Plain (s : Parsed) : Type 0 where
  untyped : Untyped s.acpi

registers_of-Untyped :
    (fadt : ℕ) (mem : Memory) (a : Acpi) → Untyped a → Untyped (registers_of fadt mem a)
registers_of-Untyped fadt mem a u = record {
  slp_typa = u.slp_typa;
  slp_typb = u.slp_typb;
  start = inr refl;
}

fadt-Untyped :
    (fadt name : ℕ) (mem : Memory) (s : Parsed) → Plain s → Plain (acpi_parse_fadt fadt name mem s)
unfolding acpi_parse_fadt
fadt-Untyped fadt name mem s u =
    either Plain _ _ _
      (either Plain _ _ _ (record { untyped = registers_of-Untyped fadt mem s.acpi u.untyped })
        (record { untyped = u.untyped }))
      (record { untyped = u.untyped })

header-Untyped :
    (header name : ℕ) (mem : Memory) (s : Parsed)
    → Plain s
    → Plain (acpi_parse_header header name mem s)
unfolding acpi_parse_header
header-Untyped header name mem s u =
    either Plain _ _ _ (either Plain _ _ _ (fadt-Untyped _ name mem s u) u)
      (record { untyped = u.untyped })

entries-Untyped :
    (n entry name : ℕ) (mem : Memory) (s : Parsed)
    → Plain s
    → Plain (rsdt_entries n entry name mem s)
unfolding rsdt_entries
entries-Untyped zero entry name mem s u = u
entries-Untyped (suc n) entry name mem s u =
    entries-Untyped n (entry + 4) name mem _ (header-Untyped _ name mem s u)

rsdt-Untyped :
    (rsdt name : ℕ) (mem : Memory) (s : Parsed) → Plain s → Plain (acpi_parse_rsdt rsdt name mem s)
unfolding acpi_parse_rsdt
rsdt-Untyped rsdt name mem s u =
    either Plain (checksum rsdt mem == 0)
      (rsdt_entries (entry_count rsdt mem) (rsdt + header_size) name mem s) (log rsdt_failed s)
      (entries-Untyped (entry_count rsdt mem) (rsdt + header_size) name mem s u)
      (record { untyped = u.untyped })

tables-Untyped :
    (rsdp name : ℕ) (mem : Memory) (s : Parsed) → Plain s → Plain (parse_tables rsdp name mem s)
unfolding parse_tables
tables-Untyped rsdp name mem s u =
    let revision = mem (rsdp + 15) in
    let rsdt = higher_half header_size (word_at mem (rsdp + 16)) in
    let parsed = rsdt-Untyped rsdt name mem s u in
    let other = log (unsupported revision) s in
    either Plain (revision == 0) (acpi_parse_rsdt rsdt name mem s)
      (if revision == 2 then acpi_parse_rsdt rsdt name mem s else other) parsed
      (either Plain (revision == 2) (acpi_parse_rsdt rsdt name mem s) other parsed
        (record { untyped = u.untyped }))

switched : (ports : ℕ → ℕ → ℕ) (s : Parsed) (io : Ports) → Plain s → Plain (switch_on ports s io).0
unfolding switch_on
switched ports s io u =
    either Plain ((acpi_enable ports s.acpi io).0 == 0) s (log enabling_failed s) u
      (record { untyped = u.untyped })

pub acpi_init-Untyped :
    (ports : ℕ → ℕ → ℕ) (rsdp name : ℕ) (mem : Memory) (s : Parsed) (io : Ports)
    → Untyped s.acpi
    → Untyped (acpi_init ports rsdp name mem s io).0.acpi
unfolding acpi_init
acpi_init-Untyped ports rsdp name mem s io u =
    let s' = log parsing s in
    let tables = tables-Untyped rsdp name mem s' (record { untyped = u }) in
    (either (λ (r : Parsed × Ports). Plain r.0) (checksum_from 20 rsdp 0 mem == 0)
      (switch_on ports (parse_tables rsdp name mem s') io) (log rsdp_failed s', io)
      (switched ports (parse_tables rsdp name mem s') io tables) (record { untyped = u })).untyped

-- What `shutdown` writes without sleep types.
written :
    (s : Parsed) (io : Ports)
    → Untyped s.acpi
    → s.acpi.sci_en ≢ 0
    → let a = s.acpi in
      let emulators = wrote 0x4004 0x3400 ∷ wrote 0x604 0x2000 ∷ wrote 0xb004 0x2000 ∷ io.deeds in
      (shutdown s io).1.deeds ≡ (
        if a.pm1b_cnt == 0
        then wrote (u16 a.pm1a_cnt) (2 ^ 13) ∷ emulators
        else wrote (u16 a.pm1b_cnt) (2 ^ 13) ∷ wrote (u16 a.pm1a_cnt) (2 ^ 13) ∷ emulators)
unfolding shutdown
written s io u on =
    let bit : s.acpi.slp_en ≡ 2 ^ 13 = started u.start on in
    elim (Bool-cases (s.acpi.pm1b_cnt == 0)) [
      | inl e ↦ rw (ne→== s.acpi.sci_en 0 on, u.slp_typa, u.slp_typb, bit, e) refl
      | inr e ↦ rw (ne→== s.acpi.sci_en 0 on, u.slp_typa, u.slp_typb, bit, e) refl
    ]
  where
    started :
        (s.acpi.sci_en ≡ 0) ⊎ (s.acpi.slp_en ≡ 2 ^ 13) → s.acpi.sci_en ≢ 0 → s.acpi.slp_en ≡ 2 ^ 13
    started (inl e) ne = absurd (ne e)
    started (inr e) ne = e

-- The machine starts with all variables 0, and `acpi_init` reads any tables. Where the code then
-- takes the machine to be in ACPI mode, `shutdown` writes to PM1a_CNT, and to PM1b_CNT where there is
-- one, the bit that starts the sleep and no sleep type, behind three writes for emulators.
pub shutdown-Untyped :
    (ports : ℕ → ℕ → ℕ) (rsdp name : ℕ) (mem : Memory) (s : Parsed) (io io' : Ports)
    → Untyped s.acpi
    → let s' = (acpi_init ports rsdp name mem s io).0 in
      let a = s'.acpi in
      a.sci_en ≢ 0
      → let emulators =
          wrote 0x4004 0x3400 ∷ wrote 0x604 0x2000 ∷ wrote 0xb004 0x2000 ∷ io'.deeds in
        (shutdown s' io').1.deeds ≡ (
          if a.pm1b_cnt == 0
          then wrote (u16 a.pm1a_cnt) (2 ^ 13) ∷ emulators
          else wrote (u16 a.pm1b_cnt) (2 ^ 13) ∷ wrote (u16 a.pm1a_cnt) (2 ^ 13) ∷ emulators)
shutdown-Untyped ports rsdp name mem s io io' u on =
    written (acpi_init ports rsdp name mem s io).0 io'
      (acpi_init-Untyped ports rsdp name mem s io u) on
