-- ===== src/Acpi/Tests.antt =====
-- Tables in memory, and runs on them.
use piggy_os.Base.{ℕ, ◌≡◌, refl, arith, false, List, [], ◌∷◌, some, ◌==◌, if◌then◌else◌, inl}
use piggy_os.Strings.{Memory, memcmp, memcmp_from}
use piggy_os.Acpi.{
  Acpi, Parsed, Ports, s5_not_found, parsing, wrote, acpi_init, acpi_enable, acpi_parse_fadt,
  registers_of, checksum_from, drain, reboot, rebooting, reboot_failed, shutdown, search_s5,
  parse_tables, switch_on, acpi_parse_rsdt, rsdt_entries, acpi_parse_header, enabling_failed,
}
use piggy_os.Acpi.Search.{acpi_parse_fadt-Search, last}
use piggy_os.Acpi.Sleep.{shutdown-Untyped}

-- At 0 a pointer to the description table at 0x200, which has one byte behind its header, where the
-- name begins; another such table at 0x300, without the name; the text at 0x400. At 0x500 the
-- pointer to the root table at 0x600, which has one entry: the table at 0x700, for the table at 0x300.
abbrev bytes : List (ℕ × ℕ)
bytes =
    (41, 2)
    ∷ (48, 0xb2)
    ∷ (0x204, 37)
    ∷ (0x209, 124)
    ∷ (0x224, 0x5f)
    ∷ (0x225, 0x53)
    ∷ (0x226, 0x35)
    ∷ (0x227, 0x5f)
    ∷ (0x304, 37)
    ∷ (0x309, 219)
    ∷ (0x400, 0x5f)
    ∷ (0x401, 0x53)
    ∷ (0x402, 0x35)
    ∷ (0x403, 0x5f)
    ∷ (0x508, 250)
    ∷ (0x511, 6)
    ∷ (0x604, 40)
    ∷ (0x609, 209)
    ∷ (0x625, 7)
    ∷ (0x700, 0x46)
    ∷ (0x701, 0x41)
    ∷ (0x702, 0x43)
    ∷ (0x703, 0x50)
    ∷ (0x704, 92)
    ∷ (0x709, 203)
    ∷ (0x729, 3)
    ∷ (0x730, 0xb2)
    ∷ (0x740, 4)
    ∷ (0x741, 6)
    ∷ []

abbrev byte_in : List (ℕ × ℕ) → ℕ → ℕ
byte_in [] p = 0
byte_in (b ∷ bs) p = if b.0 == p then b.1 else byte_in bs p

abbrev mem : Memory
mem = byte_in bytes

abbrev zeros : Acpi
zeros = record {
  smi_cmd = 0;
  acpi_enable = 0;
  acpi_disable = 0;
  pm1a_cnt = 0;
  pm1b_cnt = 0;
  slp_typa = 0;
  slp_typb = 0;
  slp_en = 0;
  sci_en = 0;
  pm1_cnt_len = 0;
}

abbrev start : Parsed
start = record { acpi = zeros; messages = [] }

abbrev idle : Ports
idle = record { reads = 0; deeds = [] }

-- The name stands at the last byte: the code says that it is not there.
acpi_parse_fadt-Search_example :
    acpi_parse_fadt 0 0x400 mem start ≡ record { acpi = zeros; messages = s5_not_found ∷ [] }
acpi_parse_fadt-Search_example =
    acpi_parse_fadt-Search 0x400 mem 0 start false refl
      (last 0 refl (λ j lt. absurd (omega arith)) (refl, (refl, (refl, (refl, tt)))))

-- Without the text: no byte is like the name, and the registers are taken over.
nameless_run :
    acpi_parse_fadt 0 0x300 mem start ≡ record { acpi = registers_of 0 mem zeros; messages = [] }
unfolding acpi_parse_fadt search_s5 memcmp memcmp_from checksum_from
nameless_run = refl

-- The second port shows the bit at each read, the first one never.
abbrev two_ports : Acpi
two_ports = record zeros {
  smi_cmd = 0xb2;
  acpi_enable = 1;
  pm1a_cnt = 0x604;
  pm1b_cnt = 0x608;
  slp_en = 0x2000;
  sci_en = 1;
}

abbrev one_shows : ℕ → ℕ → ℕ
one_shows port k = if port == 0x608 then 1 else 0

-- The tables are read, the name is missed without a message, and the machine is turned off.
abbrev after_init : Parsed × Ports
unfolding acpi_init
after_init = acpi_init one_shows 0x500 0x400 mem start idle

acpi_init_run : after_init.0.messages ≡ enabling_failed ∷ parsing ∷ []
unfolding after_init acpi_init parse_tables switch_on acpi_parse_rsdt rsdt_entries acpi_parse_header
    acpi_parse_fadt search_s5 memcmp memcmp_from checksum_from acpi_enable
acpi_init_run = refl

shutdown-Untyped_example :
    (shutdown (acpi_init one_shows 0x500 0x400 mem start idle).0 idle).1.deeds
    ≡ wrote 0x604 0x2000 ∷ wrote 0x4004 0x3400 ∷ wrote 0x604 0x2000 ∷ wrote 0xb004 0x2000 ∷ []
unfolding acpi_init parse_tables switch_on acpi_parse_rsdt rsdt_entries acpi_parse_header
    acpi_parse_fadt search_s5 memcmp memcmp_from checksum_from acpi_enable
shutdown-Untyped_example =
    shutdown-Untyped one_shows 0x500 0x400 mem start idle idle
      (record { slp_typa = refl; slp_typb = refl; start = inl refl }) (omega arith)

-- The keyboard is busy for one read.
reboot_run :
    reboot 5 (λ k. if k == 0 then 3 else 1) start idle
    ≡ some (
      record { acpi = zeros; messages = reboot_failed ∷ rebooting ∷ [] },
      record { reads = 2; deeds = wrote 0x64 0xfe ∷ [] },
    )
unfolding reboot drain
reboot_run = refl
