-- ===== src/Clock.antt =====
-- kernel/drivers/rtc.c and kernel/drivers/timer.c: the date that the real-time clock yields, its
-- seconds, and the ticks of the timer. What the clock's registers hold is the parameter `cmos`.
pub mod Reading
mod Tests
use piggy_os.Base.{
  ℕ, ◌+◌, ◌-◌, ◌*◌, ◌/◌, ◌%◌, ◌^◌, bit_and, bit_or, Bool, true, false, List, [], ◌∷◌, ◌==◌,
  if◌then◌else◌, add32, u8, u32,
}

-- `time_t`, each a 16-bit number.
pub record Date : Type 0 where
  pub year : ℕ
  pub mnth : ℕ
  pub day : ℕ
  pub hour : ℕ
  pub min : ℕ
  pub sec : ℕ

-- `(val >> 4) * 10 + (val & 0xf)` of a byte.
abbrev pub from_bcd : ℕ → ℕ
from_bcd val = val / 2 ^ 4 * 10 + val % 2 ^ 4

-- The registers `CMOS_SECOND` and so on. `read_cmos` writes the number with the bit 0x80 to one port,
-- and reads the other.
abbrev pub read_cmos : (cmos : ℕ → ℕ) → (reg : ℕ) → ℕ
read_cmos cmos reg = u8 (cmos reg)

-- The byte of a register as a number.
abbrev pub field : (cmos : ℕ → ℕ) → (reg : ℕ) → ℕ
field cmos reg = from_bcd (read_cmos cmos reg)

-- The date is read where the clock says that it ended an update: the test of 0x10.
unfoldable pub rtc_irq_handler : (cmos : ℕ → ℕ) → Date → Date
rtc_irq_handler cmos dt = if bit_and (read_cmos cmos 0x0c) 0x10 == 0 then dt else record {
  sec = field cmos 0x00;
  min = field cmos 0x02;
  hour = field cmos 0x04;
  day = field cmos 0x07;
  mnth = field cmos 0x08;
  year = 2000 + field cmos 0x09;
}

-- `rtc_init`: what it writes to register B, and the date.
abbrev pub status_b : (status : ℕ) → ℕ
status_b status = bit_and (bit_and (bit_or (bit_or status 0x02) 0x10) 0xdf) 0xbf

unfoldable pub rtc_init : (cmos : ℕ → ℕ) → Date → ℕ × Date
rtc_init cmos dt = (status_b (read_cmos cmos 0x0b), rtc_irq_handler cmos dt)

-- `int` arithmetic that wraps; from 2^31 on it is undefined in C.
unfoldable pub get_seconds : Date → ℕ
get_seconds dt = u32 (
    dt.year * 31536000
    + dt.mnth * 2629800
    + dt.day * 86400
    + (dt.hour * 3600 + dt.min * 60 + dt.sec))

-- The tick of the timer, before it calls `schedule`.
abbrev pub timer_tick : (timer_ticks : ℕ) → ℕ
timer_tick timer_ticks = add32 timer_ticks 1

-- The bytes that `timer_init` writes, for a frequency that is not negative and not 0.
abbrev pub timer_bytes : (hz : ℕ) → List ℕ
timer_bytes hz = let divisor = 1193180 / hz in 0x36 ∷ u8 divisor ∷ u8 (divisor / 2 ^ 8) ∷ []
