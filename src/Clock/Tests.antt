-- ===== src/Clock/Tests.antt =====
-- Runs of the clock.
use piggy_os.Base.{ℕ, ◌+◌, ◌≡◌, refl, arith, ◌==◌, if◌then◌else◌, u32}
use piggy_os.Base.Bits.{bit}
use piggy_os.Clock.{Date, rtc_irq_handler, get_seconds}
use piggy_os.Clock.Reading.{InRange, rtc_irq_handler-Shows, get_seconds-same_day}

-- The 30th of June 2023, at 23:59:58 and at 23:59:59.
abbrev evening : Date
evening = record { year = 2023; mnth = 6; day = 30; hour = 23; min = 59; sec = 58 }

abbrev last_second : Date
last_second = record evening { sec = 59 }

abbrev registers : ℕ → ℕ
registers r =
    if r == 0x0c
    then 0x10
    else if r == 0x00
    then 0x58
    else if r == 0x02
    then 0x59
    else if r == 0x04
    then 0x23
    else if r == 0x07
    then 0x30
    else if r == 0x08
    then 0x06
    else 0x23

evening-InRange : InRange evening
evening-InRange = record {
  sec = omega arith;
  min = omega arith;
  hour = omega arith;
  day = omega arith;
  mnth = omega arith;
  year = (omega arith, omega arith);
}

rtc_irq_handler-Shows_example : rtc_irq_handler registers last_second ≡ evening
unfolding bit
rtc_irq_handler-Shows_example =
    rtc_irq_handler-Shows registers evening last_second evening-InRange (record {
      updated = refl;
      sec = refl;
      min = refl;
      hour = refl;
      day = refl;
      mnth = refl;
      year = refl;
    })

get_seconds-same_day_run : u32 (get_seconds evening + 1) ≡ get_seconds last_second
get_seconds-same_day_run = get_seconds-same_day evening last_second refl refl refl (omega arith)
