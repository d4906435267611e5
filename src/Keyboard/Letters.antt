-- ===== src/Keyboard/Letters.antt =====
-- The case of letters under the shift key and the caps lock.
use piggy_os.Base.{
  ℕ, ◌+◌, ◌-◌, ◌*◌, ◌/◌, ◌%◌, ◌≤◌, ◌<◌, ◌≡◌, refl, ap, ◌∙◌, bit_and, Bool, true, false, not, ◌&&◌,
  ◌||◌, Option, none, some, ◌==◌, leb, if◌then◌else◌, arith, ==_refl, subst,
}
use piggy_os.Base.Count.{count, all_of_count}
use piggy_os.Keyboard.{keyboard_irq_handler, normalmap}

-- Whether a number is the code of a letter key.
abbrev pub letter_key : ℕ → Bool
letter_key code =
    (leb 16 code && leb code 25) || (leb 30 code && leb code 38) || (leb 44 code && leb code 50)

-- Whether exactly one of the shift key and the caps lock is on.
abbrev pub upper : ℕ → Bool
upper shift =
    bit_and shift 1 == 0 && not (bit_and shift 8 == 0)
    || not (bit_and shift 1 == 0) && bit_and shift 8 == 0

abbrev same_output : ℕ × Option ℕ → ℕ → ℕ → Bool
same_output (shift', none) shift c = false
same_output (shift', some c') shift c = shift' == shift && c' == c

-- What the theorem says of one key code and one state of the modifiers.
abbrev letter_at : (code shift : ℕ) → Bool
letter_at code shift =
    not (letter_key code)
    || not (bit_and shift 2 == 0)
    || same_output (keyboard_irq_handler code shift) shift
        (if upper shift then normalmap code - 32 else normalmap code)

abbrev letter_test : ℕ → Bool
letter_test k = letter_at (16 + k / 64) (k % 64)

letter_table : count letter_test 2240 ≡ 2240
unfolding keyboard_irq_handler normalmap count
letter_table = refl

same_output-eq :
    (r : ℕ × Option ℕ) (shift c : ℕ) → same_output r shift c ≡ true → r ≡ (shift, some c)
same_output-eq (shift', none) shift c h = absurd (ground arith)
same_output-eq (shift', some c') shift c h =
    let e : shift' ≡ shift = ground arith in
    let f : c' ≡ c = ground arith in
    ap (λ (x : ℕ). pair x (some c')) e ∙ ap (λ (x : ℕ). pair shift (some x)) f
  where
    pair : ℕ → Option ℕ → ℕ × Option ℕ
    pair a b = (a, b)

last_case : (a b c : Bool) → a ≡ true → b ≡ true → (not a || not b || c) ≡ true → c ≡ true
last_case a b c p q h = ground arith

-- A press of a letter key, without the control key and not behind an escape code, prints the
-- letter, as a capital if exactly one of the shift key and the caps lock is on; the state of the
-- modifiers stays as it is.
pub keyboard_irq_handler-letter :
    (code shift : ℕ)
    → letter_key code ≡ true
    → shift < 64
    → bit_and shift 2 ≡ 0
    → keyboard_irq_handler code shift
      ≡ (shift, some (if upper shift then normalmap code - 32 else normalmap code))
keyboard_irq_handler-letter code shift key small plain =
    let k = (code - 16) * 64 + shift in
    let low : 16 ≤ code = ground arith in
    let high : code ≤ 50 = ground arith in
    let first : 16 + k / 64 ≡ code = omega arith in
    let second : k % 64 ≡ shift = omega arith in
    let test : letter_test k ≡ true = all_of_count letter_test 2240 letter_table k (omega arith) in
    let c = if upper shift then normalmap code - 32 else normalmap code in
    same_output-eq (keyboard_irq_handler code shift) shift c (
      last_case (letter_key code) (bit_and shift 2 == 0) _ key (rw plain (==_refl 0)) (
        subst (λ d. letter_at d shift ≡ true) first
          (subst (λ t. letter_at (16 + k / 64) t ≡ true) second test)))
