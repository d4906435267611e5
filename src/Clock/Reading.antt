-- ===== src/Clock/Reading.antt =====
-- The date that is read from a clock that counts in binary-coded decimals.
use piggy_os.Base.{
  ℕ, ◌+◌, ◌-◌, ◌*◌, ◌/◌, ◌%◌, ◌<◌, ◌≤◌, ◌≡◌, ap, ◌∙◌, arith, bit_and, ◌==◌, u8, u32, if_false,
  ne→==,
}
use piggy_os.Base.Bits.{bit, bit_and-two_pow}
use piggy_os.Clock.{Date, field, rtc_irq_handler, get_seconds}

-- Two decimal digits in one byte.
abbrev pub to_bcd : ℕ → ℕ
to_bcd n = n / 10 * 16 + n % 10

-- The clock shows a date of this century, and has just ended an update.
pub record Shows (cmos : ℕ → ℕ) (d : Date) : Type 0 where
  pub updated : bit (u8 (cmos 0x0c)) 4 ≡ 1
  pub sec : cmos 0x00 ≡ to_bcd d.sec
  pub min : cmos 0x02 ≡ to_bcd d.min
  pub hour : cmos 0x04 ≡ to_bcd d.hour
  pub day : cmos 0x07 ≡ to_bcd d.day
  pub mnth : cmos 0x08 ≡ to_bcd d.mnth
  pub year : cmos 0x09 ≡ to_bcd (d.year - 2000)

-- Every field in its range.
pub record InRange (d : Date) : Type 0 where
  pub sec : d.sec < 60
  pub min : d.min < 60
  pub hour : d.hour < 24
  pub day : d.day < 32
  pub mnth : d.mnth < 13
  pub year : (2000 ≤ d.year) × (d.year < 2100)

field-to_bcd : (cmos : ℕ → ℕ) (reg n : ℕ) → cmos reg ≡ to_bcd n → n < 100 → field cmos reg ≡ n
field-to_bcd cmos reg n e lt = omega (arith, e)

same_date :
    {d e : Date}
    → d.year ≡ e.year
    → d.mnth ≡ e.mnth
    → d.day ≡ e.day
    → d.hour ≡ e.hour
    → d.min ≡ e.min
    → d.sec ≡ e.sec
    → d ≡ e
same_date a b c d e f = ground arith

-- The interrupt handler reads the date that the clock shows.
pub rtc_irq_handler-Shows :
    (cmos : ℕ → ℕ) (d old : Date) → InRange d → Shows cmos d → rtc_irq_handler cmos old ≡ d
unfolding rtc_irq_handler
rtc_irq_handler-Shows cmos d old r s =
    let status = u8 (cmos 0x0c) in
    let flag : bit_and status 0x10 ≡ 16 =
      bit_and-two_pow status 4 ∙ ap (λ (b : ℕ). b * 16) s.updated in
    let century = r.year in
    let year : 2000 + field cmos 0x09 ≡ d.year =
      omega (arith, field-to_bcd cmos 0x09 (d.year - 2000) s.year (omega arith)) in
    if_false (bit_and status 0x10 == 0) _ _ (ne→== (bit_and status 0x10) 0 (omega (arith, flag)))
    ∙ same_date year (field-to_bcd cmos 0x08 d.mnth s.mnth (omega (arith, r.mnth)))
        (field-to_bcd cmos 0x07 d.day s.day (omega (arith, r.day)))
        (field-to_bcd cmos 0x04 d.hour s.hour (omega (arith, r.hour)))
        (field-to_bcd cmos 0x02 d.min s.min (omega (arith, r.min)))
        (field-to_bcd cmos 0x00 d.sec s.sec (omega (arith, r.sec)))

-- Two dates of a day: the difference of their seconds, modulo `2 ^ 32`, is that of their times.
pub get_seconds-same_day :
    (a b : Date)
    → a.year ≡ b.year
    → a.mnth ≡ b.mnth
    → a.day ≡ b.day
    → let time = λ (d : Date). d.hour * 3600 + d.min * 60 + d.sec in
      time a ≤ time b → u32 (get_seconds a + (time b - time a)) ≡ get_seconds b
unfolding get_seconds
get_seconds-same_day a b y m d le = omega arith
