-- ===== src/Acpi.antt =====
-- kernel/drivers/acpi/tables.c and kernel/drivers/acpi/power.c: the tables that describe the power
-- management of the machine, its change to ACPI mode, and the machine's end.
-- `mem p` is the byte at address `p`. `klog` is noted as a message, and `sleep` by what it is given.
-- What a port yields is the parameter `ports`, by the port and the number of reads done before.
pub mod Checksum
pub mod Search
pub mod Enable
pub mod Sleep
mod Tests
use piggy_os.Base.{
  ℕ, zero, suc, ◌+◌, ◌-◌, ◌*◌, ◌/◌, ◌%◌, ◌^◌, bit_and, bit_or, Bool, true, false, not, ◌&&◌, Option,
  none, some, List, [], ◌∷◌, ◌==◌, ltb, if◌then◌else◌, add32, sub32, mul32, u8, u16,
}
use piggy_os.Strings.{Memory, word_at, memcmp}

-- The variables of the file; all of them are 0 at first.
pub record Acpi : Type 0 where
  pub smi_cmd : ℕ
  pub acpi_enable : ℕ
  pub acpi_disable : ℕ
  pub pm1a_cnt : ℕ
  pub pm1b_cnt : ℕ
  pub slp_typa : ℕ
  pub slp_typb : ℕ
  pub slp_en : ℕ
  pub sci_en : ℕ
  pub pm1_cnt_len : ℕ

-- The texts that the files log; of a checksum, the signature of the table.
pub data Message : Type 0 where
  parsing : Message
  checksum_failed : (signature : ℕ) → Message
  rsdt_failed : Message
  xsdt_failed : Message
  rsdp_failed : Message
  s5_not_found : Message
  unsupported : (revision : ℕ) → Message
  enabling_failed : Message
  rebooting : Message
  reboot_failed : Message
  shutting_down : Message
  not_possible : Message
  shutdown_failed : Message

-- The variables, and the messages, the last one first.
pub record Parsed : Type 0 where
  pub acpi : Acpi
  pub messages : List Message

abbrev pub log : Message → Parsed → Parsed
log m s = record s { messages = m ∷ s.messages }

-- The loop of `checksum`, with `n` bytes left from `p` on. A `char` with its sign is the same byte.
unfoldable pub checksum_from : (n p sum : ℕ) → Memory → ℕ
checksum_from zero p sum mem = sum
checksum_from (suc n) p sum mem = checksum_from n (p + 1) (u8 (sum + mem p)) mem

-- The `length` of a header stands at 4.
abbrev pub length_of : ℕ → Memory → ℕ
length_of header mem = word_at mem (header + 4)

abbrev pub checksum : ℕ → Memory → ℕ
checksum header mem = checksum_from (length_of header mem) header 0 mem

-- `sizeof(acpi_header_t)` and `sizeof(fadt_t)`
abbrev pub header_size : ℕ
header_size = 36

abbrev pub fadt_size : ℕ
fadt_size = 92

-- `p + 0xc0000000` of a pointer to things of `size` bytes.
abbrev pub higher_half : (size p : ℕ) → ℕ
higher_half size p = add32 p (mul32 size 0xc0000000)

-- The search of `_S5_`, a text at the address `name`: `dsdt_length` and `S5_addr` behind the loop.
-- The test takes one from a length of 0 too.
unfoldable pub search_s5 : (dsdt_length s5_addr name : ℕ) → Memory → ℕ × ℕ
search_s5 zero s5_addr name mem = (2 ^ 32 - 1, s5_addr)
search_s5 (suc dsdt_length) s5_addr name mem =
    let rest = search_s5 dsdt_length (s5_addr + 1) name mem in
    if memcmp s5_addr name 4 mem == 0 then (dsdt_length, s5_addr) else rest

-- What the table says, written to the variables. The sleep types keep their values.
abbrev pub registers_of : (fadt : ℕ) → Memory → Acpi → Acpi
registers_of fadt mem a = record a {
  smi_cmd = word_at mem (fadt + 48);
  acpi_enable = mem (fadt + 52);
  acpi_disable = mem (fadt + 53);
  pm1a_cnt = word_at mem (fadt + 64);
  pm1b_cnt = word_at mem (fadt + 68);
  pm1_cnt_len = mem (fadt + 89);
  slp_en = 2 ^ 13;
  sci_en = 1;
}

-- Where the name is found, the code moves `S5_addr` on and reads a byte there, and then nothing
-- uses it.
abbrev pub take_registers : (dsdt_length fadt : ℕ) → Memory → Parsed → Parsed
take_registers dsdt_length fadt mem s =
    if ltb 0 dsdt_length
    then record s { acpi = registers_of fadt mem s.acpi }
    else log s5_not_found s

abbrev pub dsdt_of : (fadt : ℕ) → Memory → ℕ
dsdt_of fadt mem = word_at mem (fadt + 40)

unfoldable pub acpi_parse_fadt : (fadt name : ℕ) → Memory → Parsed → Parsed
unfolding search_s5 checksum_from
acpi_parse_fadt fadt name mem s =
    let dsdt = dsdt_of fadt mem in
    let found = search_s5 (sub32 (length_of dsdt mem) header_size) (dsdt + header_size) name mem in
    if checksum dsdt mem == 0
    then take_registers found.0 fadt mem s
    else log (checksum_failed (word_at mem dsdt)) s

-- `FACP`
abbrev pub facp : ℕ
facp = 0x50434146

unfoldable pub acpi_parse_header : (header name : ℕ) → Memory → Parsed → Parsed
unfolding acpi_parse_fadt checksum_from
acpi_parse_header header name mem s =
    let signature = word_at mem header in
    if checksum header mem == 0
    then (if signature == facp
        then acpi_parse_fadt (higher_half fadt_size header) name mem s
        else s)
    else log (checksum_failed signature) s

-- The loops over the entries, with `n` rounds left.
unfoldable pub rsdt_entries : (n entry name : ℕ) → Memory → Parsed → Parsed
unfolding acpi_parse_header
rsdt_entries zero entry name mem s = s
rsdt_entries (suc n) entry name mem s =
    let header = higher_half header_size (word_at mem entry) in
    rsdt_entries n (entry + 4) name mem (acpi_parse_header header name mem s)

unfoldable pub xsdt_entries : (n entry name : ℕ) → Memory → Parsed → Parsed
unfolding acpi_parse_header
xsdt_entries zero entry name mem s = s
xsdt_entries (suc n) entry name mem s =
    xsdt_entries n (entry + 8) name mem (acpi_parse_header (word_at mem entry) name mem s)

-- Both tables take a fourth of the bytes behind the header as the number of entries.
abbrev pub entry_count : (table : ℕ) → Memory → ℕ
entry_count table mem = sub32 (length_of table mem) header_size / 4

unfoldable pub acpi_parse_rsdt : (rsdt name : ℕ) → Memory → Parsed → Parsed
unfolding rsdt_entries checksum_from
acpi_parse_rsdt rsdt name mem s =
    if checksum rsdt mem == 0
    then rsdt_entries (entry_count rsdt mem) (rsdt + header_size) name mem s
    else log rsdt_failed s

unfoldable pub acpi_parse_xsdt : (xsdt name : ℕ) → Memory → Parsed → Parsed
unfolding xsdt_entries checksum_from
acpi_parse_xsdt xsdt name mem s =
    if checksum xsdt mem == 0
    then xsdt_entries (entry_count xsdt mem) (xsdt + header_size) name mem s
    else log xsdt_failed s

-- The ports: how often `inw` ran, and what was written to which port, the last one first, with the
-- milliseconds of each `sleep`.
pub data Deed : Type 0 where
  wrote : (port value : ℕ) → Deed
  slept : (ms : ℕ) → Deed

pub record Ports : Type 0 where
  pub reads : ℕ
  pub deeds : List Deed

abbrev pub out : (port value : ℕ) → Ports → Ports
out port value io = record io { deeds = wrote (u16 port) value ∷ io.deeds }

-- A read counts, whatever it yields.
abbrev pub inw : (ports : ℕ → ℕ → ℕ) → (port : ℕ) → Ports → ℕ
inw ports port io = u16 (ports (u16 port) io.reads)

abbrev pub did_read : Ports → Ports
did_read io = record io { reads = suc io.reads }

abbrev pub sleep : (ms : ℕ) → Ports → Ports
sleep ms io = record io { deeds = slept ms ∷ io.deeds }

-- The loop that waits up to `left` rounds from round `i` on: `i` behind it.
unfoldable pub wait_for :
    (ports : ℕ → ℕ → ℕ) → (ready : ℕ → Bool) → (left i port : ℕ) → Ports → ℕ × Ports
wait_for ports ready zero i port io = (i, io)
wait_for ports ready (suc left) i port io =
    let rest = wait_for ports ready left (i + 1) port (sleep 10 (did_read io)) in
    if ready (inw ports port io) then (i, did_read io) else rest

-- The tests of the two ports: `(word & SCI_EN) == 1`, and `word & SCI_EN`.
abbrev pub is_one : Acpi → ℕ → Bool
is_one a word = bit_and word a.sci_en == 1

abbrev pub is_set : Acpi → ℕ → Bool
is_set a word = not (bit_and word a.sci_en == 0)

-- The `int` −1.
abbrev pub failed : ℕ
failed = 2 ^ 32 - 1

-- The second wait begins with 0 again, in the same `i`.
unfoldable pub acpi_enable : (ports : ℕ → ℕ → ℕ) → Acpi → Ports → ℕ × Ports
unfolding wait_for
acpi_enable ports a io =
    let asked = out a.smi_cmd a.acpi_enable (did_read io) in
    let first = wait_for ports (is_one a) 300 0 a.pm1a_cnt asked in
    let second = wait_for ports (is_set a) 300 0 a.pm1b_cnt first.1 in
    let last = if a.pm1b_cnt == 0 then first else second in
    if is_set a (inw ports a.pm1a_cnt io)
    then (0, did_read io)
    else if not (a.smi_cmd == 0) && not (a.acpi_enable == 0)
    then ((if ltb last.0 300 then 0 else failed), last.1)
    else (failed, did_read io)

-- The table is read for the revisions 0 and 2 alike.
unfoldable pub parse_tables : (rsdp name : ℕ) → Memory → Parsed → Parsed
unfolding acpi_parse_rsdt
parse_tables rsdp name mem s =
    let revision = mem (rsdp + 15) in
    let rsdt = higher_half header_size (word_at mem (rsdp + 16)) in
    if revision == 0
    then acpi_parse_rsdt rsdt name mem s
    else if revision == 2
    then acpi_parse_rsdt rsdt name mem s
    else log (unsupported revision) s

unfoldable pub switch_on : (ports : ℕ → ℕ → ℕ) → Parsed → Ports → Parsed × Ports
unfolding acpi_enable
switch_on ports s io =
    let (code, io') = acpi_enable ports s.acpi io in
    ((if code == 0 then s else log enabling_failed s), io')

unfoldable pub acpi_init :
    (ports : ℕ → ℕ → ℕ) → (rsdp name : ℕ) → Memory → Parsed → Ports → Parsed × Ports
unfolding checksum_from parse_tables switch_on
acpi_init ports rsdp name mem s io =
    let s' = log parsing s in
    let done = switch_on ports (parse_tables rsdp name mem s') io in
    if checksum_from 20 rsdp 0 mem == 0 then done else (log rsdp_failed s', io)

-- `reboot`, up to the `hlt`, on `fuel` reads of the keyboard's status; `none` where they run out.
unfoldable pub drain : ℕ → (status : ℕ → ℕ) → (k : ℕ) → Option ℕ
drain zero status k = none
drain (suc fuel) status k =
    let rest = drain fuel status (k + 1) in
    if bit_and (u8 (status k)) 0x02 == 0 then some (k + 1) else rest

abbrev pub pulse : Option ℕ → Parsed → Ports → Option (Parsed × Ports)
pulse none s io = none
pulse (some k) s io = some (log reboot_failed s, out 0x64 0xfe (record io { reads = io.reads + k }))

unfoldable pub reboot : ℕ → (status : ℕ → ℕ) → Parsed → Ports → Option (Parsed × Ports)
unfolding drain
reboot fuel status s io = pulse (drain fuel status 0) (log rebooting s) io

unfoldable pub shutdown : Parsed → Ports → Parsed × Ports
shutdown s io =
    let a = s.acpi in
    let s' = log shutting_down s in
    let io' = out 0x4004 0x3400 (out 0x604 0x2000 (out 0xb004 0x2000 io)) in
    let first = out a.pm1a_cnt (bit_or a.slp_typa a.slp_en) io' in
    let second =
      if a.pm1b_cnt == 0 then first else out a.pm1b_cnt (bit_or a.slp_typb a.slp_en) first in
    if a.sci_en == 0 then (log not_possible s', io') else (log shutdown_failed s', second)
