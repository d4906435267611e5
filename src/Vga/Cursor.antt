-- ===== src/Vga/Cursor.antt =====
-- The cursor of vga.c stays on the screen.
use piggy_os.Base.{ℕ, ◌+◌, ◌*◌, ◌/◌, ◌≤◌, ◌<◌, ◌≡◌, bit_and, arith}
use piggy_os.Base.Bits.{bit_and-high_mask}
use piggy_os.Vga.{Vga, place, wrap, scroll, move_cur, vga_putc}

-- The cursor is on the screen.
pub record IsValid (s : Vga) : Type 0 where
  pub column : s.cur_x < 80
  pub row : s.cur_y < 25

-- At most one column or one row behind the screen, as between the steps of `vga_putc`.
pub record IsNear (s : Vga) : Type 0 where
  pub column : s.cur_x ≤ 80
  pub row : s.cur_y ≤ 25
  pub corner : s.cur_x ≡ 80 → s.cur_y < 25

tab : (x : ℕ) → x < 80 → bit_and (x + 8) 0xfffffff8 ≡ (x + 8) / 8 * 8
tab x h = bit_and-high_mask 3 29 (x + 8) (omega arith)

pub place-IsNear : (c : ℕ) (s : Vga) → IsValid s → IsNear (place c s)
unfolding place
place-IsNear c s v = record {
  column = ground (arith, tab s.cur_x v.column, v.column);
  row = ground (arith, v.row);
  corner = λ e. ground (arith, v.row);
}

pub wrap-near : (s : Vga) → IsNear s → ((wrap s).cur_x < 80) × ((wrap s).cur_y ≤ 25)
unfolding wrap
wrap-near s v = (ground (arith, v.column), ground (arith, v.row, v.corner))

scroll-IsValid : (s : Vga) → s.cur_x < 80 → s.cur_y ≤ 25 → IsValid (scroll s)
unfolding scroll
scroll-IsValid s h k = record { column = ground arith; row = ground arith }

-- `vga_putc` of any character leaves the cursor on the screen.
pub vga_putc-IsValid : (c : ℕ) (s : Vga) → IsValid s → IsValid (vga_putc c s)
unfolding vga_putc move_cur
vga_putc-IsValid c s v =
    let (h, k) = wrap-near (place c s) (place-IsNear c s v) in
    let w = scroll-IsValid (wrap (place c s)) h k in record { column = w.column; row = w.row }
