-- ===== src/Acpi/Enable.antt =====
-- `acpi_enable`: its answer.
use piggy_os.Base.{ℕ, ◌+◌, ◌<◌, ◌≡◌, ◌≢◌, true, false}
use piggy_os.Acpi.{Acpi, Ports, inw, out, did_read, wait_for, is_one, is_set, failed, acpi_enable}

-- After `n` more reads.
abbrev pub later : ℕ → Ports → Ports
later n io = record io { reads = io.reads + n }

-- Behind the wait for the first port.
abbrev pub waited : (ports : ℕ → ℕ → ℕ) → Acpi → Ports → Ports
waited ports a io =
    (wait_for ports (is_one a) 300 0 a.pm1a_cnt (out a.smi_cmd a.acpi_enable (did_read io))).1

-- The machine is not in ACPI mode, and there is a command to change that, and a second port.
pub record Asks (ports : ℕ → ℕ → ℕ) (a : Acpi) (io : Ports) : Type 0 where
  pub off : is_set a (inw ports a.pm1a_cnt io) ≡ false
  pub command : a.smi_cmd ≢ 0
  pub value : a.acpi_enable ≢ 0
  pub second : a.pm1b_cnt ≢ 0

-- What the reads of the second port show, and the answer.
pub data Outcome (ports : ℕ → ℕ → ℕ) (a : Acpi) (io : Ports) : (answer : ℕ) → Type 0 where
  shown :
      (n : ℕ)
      → n < 300
      → is_set a (inw ports a.pm1b_cnt (later n (waited ports a io))) ≡ true
      → Outcome ports a io 0
  silent :
      ((n : ℕ) → n < 300 → is_set a (inw ports a.pm1b_cnt (later n (waited ports a io))) ≡ false)
      → Outcome ports a io failed
