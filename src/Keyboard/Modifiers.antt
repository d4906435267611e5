-- ===== src/Keyboard/Modifiers.antt =====
-- The modifier bits over a press and a release.
use piggy_os.Base.{
  ℕ, ◌+◌, ◌-◌, ◌*◌, ◌/◌, ◌%◌, ◌<◌, ◌≡◌, ◌≢◌, refl, bit_and, bit_xor, Bool, true, false, ◌||◌, ◌==◌,
  arith, ==_iff, subst, ne→==,
}
use piggy_os.Base.Count.{count, all_of_count}
use piggy_os.Keyboard.{keyboard_irq_handler, shiftcode, togglecode}

-- The state of the modifiers when a key has been pressed and released again.
abbrev pub tapped : (code shift : ℕ) → ℕ
tapped code shift = (keyboard_irq_handler (code + 128) (keyboard_irq_handler code shift).0).0

-- What is expected of it: a lock turns over, and the bit of the key is clear.
abbrev pub expected : (code shift : ℕ) → ℕ
expected code shift = bit_and (bit_xor shift (togglecode code)) (255 - shiftcode code)

abbrev tap_at : (code shift : ℕ) → Bool
tap_at code shift = code == 0x60 || tapped code shift == expected code shift

abbrev tap_test : ℕ → Bool
tap_test k = tap_at (k / 64) (k % 64)

tap_table : count tap_test 8192 ≡ 8192
unfolding keyboard_irq_handler shiftcode togglecode count
tap_table = refl

either : (a b : Bool) → a ≡ false → (a || b) ≡ true → b ≡ true
either a b p h = ground arith

-- A key that is pressed and released, not behind an escape code, turns its lock over, or clears its
-- modifier, and changes no other bit. Code 0x60 is left out: its release is the escape code.
pub keyboard_irq_handler-tap :
    (code shift : ℕ)
    → code < 128
    → code ≢ 0x60
    → shift < 64
    → tapped code shift ≡ expected code shift
keyboard_irq_handler-tap code shift small ne low =
    let k = code * 64 + shift in
    let first : k / 64 ≡ code = omega arith in
    let second : k % 64 ≡ shift = omega arith in
    let test : tap_test k ≡ true = all_of_count tap_test 8192 tap_table k (omega arith) in
    (==_iff (tapped code shift) (expected code shift)).0 (
      either (code == 0x60) _ (ne→== code 0x60 ne) (
        subst (λ d. tap_at d shift ≡ true) first
          (subst (λ t. tap_at (k / 64) t ≡ true) second test)))
