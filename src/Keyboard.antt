-- ===== src/Keyboard.antt =====
-- kernel/drivers/keyboard.c: the tables of key codes and the interrupt handler. `keyboard_reset` only
-- writes to ports.
pub mod Letters
pub mod Modifiers
mod Tests
use piggy_os.Base.{
  ℕ, zero, suc, ◌+◌, ◌-◌, ◌%◌, bit_and, bit_or, bit_xor, Bool, true, false, ◌&&◌, List, [], ◌∷◌,
  Option, none, some, ◌==◌, leb, if◌then◌else◌, u8,
}

-- The bits of `shift`.
abbrev pub shift_bit : ℕ
shift_bit = 1

abbrev pub ctl : ℕ
ctl = 2

abbrev pub alt : ℕ
alt = 4

abbrev pub capslock : ℕ
capslock = 8

abbrev pub numlock : ℕ
numlock = 16

abbrev pub scrolllock : ℕ
scrolllock = 32

abbrev pub e0esc : ℕ
e0esc = 64

pub shiftcode : ℕ → ℕ
shiftcode code =
    if code == 0x1D
    then ctl
    else if code == 0x2A
    then shift_bit
    else if code == 0x36
    then shift_bit
    else if code == 0x38
    then alt
    else if code == 0x9D
    then ctl
    else if code == 0xB8
    then alt
    else 0

pub togglecode : ℕ → ℕ
togglecode code =
    if code == 0x3A
    then capslock
    else if code == 0x45
    then numlock
    else if code == 0x46
    then scrolllock
    else 0

-- The entry of a table that is given by its first entries and two more; the others are 0.
abbrev pub entry : List ℕ → ℕ → ℕ
entry [] index = 0
entry (c ∷ cs) zero = c
entry (c ∷ cs) (suc index) = entry cs index

abbrev pub table : List ℕ → (enter slash : ℕ) → ℕ → ℕ
table cs enter slash code =
    if code == 0x9C then enter else if code == 0xB5 then slash else entry cs code

pub normalmap : ℕ → ℕ
normalmap =
    table
      (0 ∷ 27 ∷ 49 ∷ 50 ∷ 51 ∷ 52 ∷ 53 ∷ 54 ∷ 55 ∷ 56 ∷ 57 ∷ 48 ∷ 45 ∷ 61 ∷ 8 ∷ 9 ∷ 113 ∷ 119 ∷ 101
        ∷ 114 ∷ 116 ∷ 121 ∷ 117 ∷ 105 ∷ 111 ∷ 112 ∷ 91 ∷ 93 ∷ 10 ∷ 0 ∷ 97 ∷ 115 ∷ 100 ∷ 102 ∷ 103
        ∷ 104 ∷ 106 ∷ 107 ∷ 108 ∷ 59 ∷ 39 ∷ 96 ∷ 0 ∷ 92 ∷ 122 ∷ 120 ∷ 99 ∷ 118 ∷ 98 ∷ 110 ∷ 109 ∷ 44
        ∷ 46 ∷ 47 ∷ 0 ∷ 42 ∷ 0 ∷ 32 ∷ 0 ∷ 0 ∷ 0 ∷ 0 ∷ 0 ∷ 0 ∷ 0 ∷ 0 ∷ 0 ∷ 0 ∷ 0 ∷ 0 ∷ 0 ∷ 55 ∷ 56
        ∷ 57 ∷ 45 ∷ 52 ∷ 53 ∷ 54 ∷ 43 ∷ 49 ∷ 50 ∷ 51 ∷ 48 ∷ 46 ∷ 0 ∷ 0 ∷ 0 ∷ 0 ∷ [])
      10 47

pub shiftmap : ℕ → ℕ
shiftmap =
    table
      (0 ∷ 27 ∷ 33 ∷ 64 ∷ 35 ∷ 36 ∷ 37 ∷ 94 ∷ 38 ∷ 42 ∷ 40 ∷ 41 ∷ 95 ∷ 43 ∷ 8 ∷ 9 ∷ 81 ∷ 87 ∷ 69
        ∷ 82 ∷ 84 ∷ 89 ∷ 85 ∷ 73 ∷ 79 ∷ 80 ∷ 123 ∷ 125 ∷ 10 ∷ 0 ∷ 65 ∷ 83 ∷ 68 ∷ 70 ∷ 71 ∷ 72 ∷ 74
        ∷ 75 ∷ 76 ∷ 58 ∷ 34 ∷ 126 ∷ 0 ∷ 124 ∷ 90 ∷ 88 ∷ 67 ∷ 86 ∷ 66 ∷ 78 ∷ 77 ∷ 60 ∷ 62 ∷ 63 ∷ 0
        ∷ 42 ∷ 0 ∷ 32 ∷ 0 ∷ 0 ∷ 0 ∷ 0 ∷ 0 ∷ 0 ∷ 0 ∷ 0 ∷ 0 ∷ 0 ∷ 0 ∷ 0 ∷ 0 ∷ 55 ∷ 56 ∷ 57 ∷ 45 ∷ 52
        ∷ 53 ∷ 54 ∷ 43 ∷ 49 ∷ 50 ∷ 51 ∷ 48 ∷ 46 ∷ 0 ∷ 0 ∷ 0 ∷ 0 ∷ [])
      10 47

-- `C(x)` is `x - 64`, as a byte.
pub ctlmap : ℕ → ℕ
ctlmap =
    table
      (0 ∷ 0 ∷ 0 ∷ 0 ∷ 0 ∷ 0 ∷ 0 ∷ 0 ∷ 0 ∷ 0 ∷ 0 ∷ 0 ∷ 0 ∷ 0 ∷ 0 ∷ 0 ∷ 17 ∷ 23 ∷ 5 ∷ 18 ∷ 20 ∷ 25
        ∷ 21 ∷ 9 ∷ 15 ∷ 16 ∷ 0 ∷ 0 ∷ 13 ∷ 0 ∷ 1 ∷ 19 ∷ 4 ∷ 6 ∷ 7 ∷ 8 ∷ 10 ∷ 11 ∷ 12 ∷ 0 ∷ 0 ∷ 0 ∷ 0
        ∷ 28 ∷ 26 ∷ 24 ∷ 3 ∷ 22 ∷ 2 ∷ 14 ∷ 13 ∷ 0 ∷ 0 ∷ 239 ∷ 0 ∷ 0 ∷ [])
      13 239

-- `charcode`, at the index `shift & (CTL | SHIFT)`.
pub charcode : ℕ → ℕ → ℕ
charcode index code =
    if index == 0 then normalmap code else if index == 1 then shiftmap code else ctlmap code

-- The letters change their case under the caps lock.
pub caps : (shift c : ℕ) → ℕ
caps shift c =
    if bit_and shift capslock == 0
    then c
    else if leb 97 c && leb c 122
    then u8 (c + 224)
    else if leb 65 c && leb c 90
    then u8 (c + 32)
    else c

-- A key press: the new `shift`, and the character printed.
pub press : (code shift : ℕ) → ℕ × Option ℕ
press code shift =
    let shift' = bit_xor (bit_or shift (shiftcode code)) (togglecode code) in
    (shift', some (caps shift' (charcode (bit_and shift' 3) code)))

-- The handler, on the byte read from the keyboard. `~` and `&=` are on 8 bits.
unfoldable pub keyboard_irq_handler : (code shift : ℕ) → ℕ × Option ℕ
unfolding press caps charcode normalmap shiftmap ctlmap shiftcode togglecode
keyboard_irq_handler code shift =
    let released = if bit_and shift e0esc == 0 then bit_and code 0x7F else code in
    if code == 0xE0
    then (bit_or shift e0esc, none)
    else if bit_and code 0x80 == 0
    then (if bit_and shift e0esc == 0
        then press code shift
        else press (bit_or code 0x80) (bit_and shift (255 - e0esc)))
    else (bit_and shift (255 - bit_or (shiftcode released) e0esc), none)
