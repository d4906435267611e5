-- ===== src/Vga.antt =====
-- kernel/drivers/vga.c: the text screen. The cell at column x of row y is number `y * 80 + x`. The
-- writes that move the hardware cursor are the list `ports`.
pub mod Cursor
pub mod Screen
mod Tests
use piggy_os.Base.{
  ℕ, zero, suc, ◌+◌, ◌-◌, ◌*◌, ◌/◌, ◌%◌, ◌^◌, bit_and, bit_or, Bool, true, false, ◌&&◌, List, [],
  ◌∷◌, ◌==◌, leb, ltb, if◌then◌else◌, u8, u16, update,
}

-- `NUM_COLS` and `NUM_ROWS`, and the blank cell.
abbrev pub num_cols : ℕ
num_cols = 80

abbrev pub num_rows : ℕ
num_rows = 25

abbrev pub blank : ℕ
blank = 3872

-- The variables of the file, and the writes to ports in order, the last one first.
pub record Vga : Type 0 where
  pub screen_buffer : ℕ → ℕ
  pub color : ℕ
  pub cur_x : ℕ
  pub cur_y : ℕ
  pub ports : List (ℕ × ℕ)

-- The loop of `vga_clear`, with `rounds` rounds left.
pub clear_from : (rounds i : ℕ) → (ℕ → ℕ) → ℕ → ℕ
clear_from zero i cells = cells
clear_from (suc rounds) i cells = clear_from rounds (suc i) (update cells i blank)

unfoldable pub vga_clear : Vga → Vga
unfolding clear_from
vga_clear s = record s { screen_buffer = clear_from (num_cols * num_rows) 0 s.screen_buffer }

-- `memcpy` of `n` cells from `temp * NUM_COLS` cells behind the start to the start: the bytes are
-- copied in ascending order, so that each is read before it is written.
abbrev pub moved_up : (temp n : ℕ) → (ℕ → ℕ) → ℕ → ℕ
moved_up temp n cells i = if ltb i n then cells (i + temp * num_cols) else cells i

unfoldable pub scroll : Vga → Vga
unfolding clear_from
scroll s =
    let temp = s.cur_y - num_rows + 1 in
    let up = moved_up temp ((num_rows - temp) * num_cols) s.screen_buffer in
    if leb num_rows s.cur_y
    then record s {
      screen_buffer = clear_from num_cols (num_cols * (num_rows - 1)) up;
      cur_y = num_rows - 1;
    }
    else s

unfoldable pub move_cur : Vga → Vga
move_cur s =
    let temp = u16 (s.cur_y * num_cols + s.cur_x) in
    record s {
      ports = (0x3D5, u8 temp) ∷ (0x3D4, 15) ∷ (0x3D5, u8 (temp / 2 ^ 8)) ∷ (0x3D4, 14) ∷ s.ports;
    }

-- A `char` from its byte: those from 128 on are negative.
abbrev pub printable : ℕ → Bool
printable c = leb 32 c && ltb c 128

-- The branches on the character. A character that is printed is not negative, so its extension to
-- 16 bits is the byte itself.
unfoldable pub place : ℕ → Vga → Vga
place c s =
    let before = s.cur_y * num_cols + u8 (s.cur_x + 255) in
    let here = s.cur_y * num_cols + s.cur_x in
    if c == 0x08
    then (if s.cur_x == 0 then s else record s {
      cur_x = u8 (s.cur_x + 255);
      screen_buffer = update s.screen_buffer before blank;
    })
    else if c == 0x09
    then record s { cur_x = u8 (bit_and (s.cur_x + 8) 0xfffffff8) }
    else if c == 13
    then record s { cur_x = 0 }
    else if c == 10
    then record s { cur_x = 0; cur_y = u8 (s.cur_y + 1) }
    else if printable c
    then record s {
      screen_buffer = update s.screen_buffer here (bit_or c s.color);
      cur_x = u8 (s.cur_x + 1);
    }
    else s

unfoldable pub wrap : Vga → Vga
wrap s = if leb num_cols s.cur_x then record s { cur_x = 0; cur_y = u8 (s.cur_y + 1) } else s

unfoldable pub vga_putc : ℕ → Vga → Vga
unfolding place wrap scroll move_cur
vga_putc c s = move_cur (scroll (wrap (place c s)))

-- The characters up to the terminator.
unfoldable pub vga_puts : List ℕ → Vga → Vga
vga_puts [] s = s
vga_puts (c ∷ cs) s = vga_puts cs (vga_putc c s)

unfoldable pub vga_set_color : (fg bg : ℕ) → Vga → Vga
vga_set_color fg bg s = record s { color = u16 (bit_or (bg * 2 ^ 4) fg * 2 ^ 8) }
