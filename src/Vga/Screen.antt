-- ===== src/Vga/Screen.antt =====
-- What `vga_putc` and `vga_clear` write to the screen.
use piggy_os.Base.{
  ℕ, zero, suc, ◌+◌, ◌-◌, ◌*◌, ◌≤◌, ◌<◌, ◌≡◌, bit_or, refl, sym, ap, ◌∙◌, List, arith, true, leb,
  ltb, ◌&&◌, if◌then◌else◌, update, u8, if_true, if_false, subst,
}
use piggy_os.Vga.{
  Vga, blank, place, wrap, scroll, move_cur, vga_putc, vga_clear, clear_from, moved_up, printable,
}
use piggy_os.Vga.Cursor.{IsValid, place-IsNear, wrap-near, vga_putc-IsValid}

clear_from-cell :
    (rounds i j : ℕ) (cells : ℕ → ℕ)
    → clear_from rounds i cells j ≡ (if leb i j && ltb j (i + rounds) then blank else cells j)
unfolding clear_from
clear_from-cell zero i j cells = ground arith
clear_from-cell (suc rounds) i j cells =
    ground (arith, clear_from-cell rounds (suc i) j (update cells i blank))

-- `vga_clear` blanks the 2000 cells of the screen, and writes to nothing behind them.
pub vga_clear-blank :
    (s : Vga) (i : ℕ)
    → ((i < 2000 → (vga_clear s).screen_buffer i ≡ blank)
        × (2000 ≤ i → (vga_clear s).screen_buffer i ≡ s.screen_buffer i))
unfolding vga_clear
vga_clear-blank s i = (
  λ h.
      clear_from-cell 2000 0 i s.screen_buffer
      ∙ if_true (leb 0 i && ltb i 2000) blank (s.screen_buffer i) (ground arith),
  λ h.
      clear_from-cell 2000 0 i s.screen_buffer
      ∙ if_false (leb 0 i && ltb i 2000) blank (s.screen_buffer i) (ground arith),
)

place-outside :
    (c i : ℕ) (s : Vga) → IsValid s → 2000 ≤ i → (place c s).screen_buffer i ≡ s.screen_buffer i
unfolding place
place-outside c i s v h = ground (arith, v.column, v.row)

scroll-outside :
    (i : ℕ) (s : Vga) → s.cur_y ≤ 25 → 2000 ≤ i → (scroll s).screen_buffer i ≡ s.screen_buffer i
unfolding scroll
scroll-outside i s k h = ground (
  arith,
  clear_from-cell 80 1920 i
      (moved_up (s.cur_y - 25 + 1) ((25 - (s.cur_y - 25 + 1)) * 80) s.screen_buffer),
)

wrap-screen : (s : Vga) → (wrap s).screen_buffer ≡ s.screen_buffer
unfolding wrap
wrap-screen s = ground arith

-- `vga_putc` of any character, with the cursor on the screen, writes to no cell behind the screen.
pub vga_putc-outside :
    (c i : ℕ) (s : Vga) → IsValid s → 2000 ≤ i → (vga_putc c s).screen_buffer i ≡ s.screen_buffer i
unfolding vga_putc move_cur
vga_putc-outside c i s v h =
    let (_, k) = wrap-near (place c s) (place-IsNear c s v) in
    scroll-outside i (wrap (place c s)) k h
    ∙ ap (λ (b : ℕ → ℕ). b i) (wrap-screen (place c s))
    ∙ place-outside c i s v h

-- The screen `after` shows what `before` shows, one row higher, with a blank last row.
pub record RolledUp (before after : ℕ → ℕ) : Type 0 where
  pub rows : (i : ℕ) → i < 1920 → after i ≡ before (i + 80)
  pub last : (i : ℕ) → 1920 ≤ i → i < 2000 → after i ≡ blank

-- The screen and the cursor behind the character at number `position`: the cell there has it, and
-- the cursor goes on to the next cell, the screen rolled up behind the last one.
pub record Printed (cell position : ℕ) (s s' : Vga) : Type 0 where
  pub inside :
      position + 1 < 2000
      → (s'.screen_buffer ≡ update s.screen_buffer position cell)
        × (s'.cur_y * 80 + s'.cur_x ≡ position + 1)
  pub at_the_end :
      position + 1 ≡ 2000
      → RolledUp (update s.screen_buffer position cell) s'.screen_buffer
        × (s'.cur_y ≡ 24)
        × (s'.cur_x ≡ 0)
  pub valid : IsValid s'

printed : (s : Vga) (cell : ℕ) → Vga
printed s cell = record s {
  screen_buffer = update s.screen_buffer (s.cur_y * 80 + s.cur_x) cell;
  cur_x = u8 (s.cur_x + 1);
}

place-printed : (c : ℕ) (s : Vga) → printable c ≡ true → place c s ≡ printed s (bit_or c s.color)
unfolding place printed
place-printed c s p = ground arith

-- The steps of `vga_putc` behind the branches.
abbrev settle : Vga → Vga
settle s = move_cur (scroll (wrap s))

settle-inside :
    (s : Vga)
    → 0 < s.cur_x
    → s.cur_x ≤ 80
    → s.cur_y * 80 + s.cur_x < 2000
    → let s' = settle s in
      (s'.screen_buffer ≡ s.screen_buffer) × (s'.cur_y * 80 + s'.cur_x ≡ s.cur_y * 80 + s.cur_x)
unfolding wrap scroll move_cur
settle-inside s a b h = (ground arith, ground arith)

scroll-roll :
    (cells : ℕ → ℕ) (color x : ℕ) (ports : List (ℕ × ℕ))
    → let s' =
        scroll
          (record { screen_buffer = cells; color = color; cur_x = x; cur_y = 25; ports = ports }) in
      RolledUp cells s'.screen_buffer × (s'.cur_y ≡ 24) × (s'.cur_x ≡ x)
unfolding scroll
scroll-roll cells color x ports = (
  record {
    rows = λ i h.
        clear_from-cell 80 1920 i (moved_up 1 1920 cells)
        ∙ if_false (leb 1920 i && ltb i 2000) blank (moved_up 1 1920 cells i) (ground arith)
        ∙ if_true (ltb i 1920) (cells (i + 80)) (cells i) (ground arith);
    last = λ i h k.
        clear_from-cell 80 1920 i (moved_up 1 1920 cells)
        ∙ if_true (leb 1920 i && ltb i 2000) blank (moved_up 1 1920 cells i) (ground arith);
  },
  refl,
  refl,
)

settle-roll :
    (s : Vga)
    → s.cur_x ≡ 80
    → s.cur_y ≡ 24
    → let s' = settle s in
      RolledUp s.screen_buffer s'.screen_buffer × (s'.cur_y ≡ 24) × (s'.cur_x ≡ 0)
unfolding wrap scroll move_cur
settle-roll s a b =
    let next : u8 (s.cur_y + 1) ≡ 25 = omega arith in
    let wrapped : wrap s ≡ record s { cur_x = 0; cur_y = 25 } =
      if_true (leb 80 s.cur_x) _ _ (ground arith)
      ∙ ap (λ (y : ℕ). record s { cur_x = 0; cur_y = y }) next in
    subst
      (λ (w : Vga).
        RolledUp s.screen_buffer (scroll w).screen_buffer
        × ((scroll w).cur_y ≡ 24)
        × ((scroll w).cur_x ≡ 0))
      (sym wrapped) (scroll-roll s.screen_buffer s.color 0 s.ports)

-- A printable character goes to the cell at the cursor, in the current color.
pub vga_putc-Printed :
    (c : ℕ) (s : Vga)
    → IsValid s
    → printable c ≡ true
    → Printed (bit_or c s.color) (s.cur_y * 80 + s.cur_x) s (vga_putc c s)
unfolding vga_putc printed
vga_putc-Printed c s v p =
    let s₁ = printed s (bit_or c s.color) in
    let run : vga_putc c s ≡ settle s₁ = ap settle (place-printed c s p) in
    record {
      inside = λ h.
          subst
            (λ (w : Vga).
              (w.screen_buffer ≡ s₁.screen_buffer)
              × (w.cur_y * 80 + w.cur_x ≡ s.cur_y * 80 + s.cur_x + 1))
            (sym run)
            (let (same, at) =
                settle-inside s₁ (omega (arith, v.column)) (omega (arith, v.column))
                  (omega (arith, v.column, h)) in
              (same, at ∙ omega (arith, v.column)));
      at_the_end = λ h.
          subst
            (λ (w : Vga).
              RolledUp s₁.screen_buffer w.screen_buffer × (w.cur_y ≡ 24) × (w.cur_x ≡ 0))
            (sym run)
            (settle-roll s₁ (omega (arith, v.column, v.row, h))
              (omega (arith, v.column, v.row, h)));
      valid = vga_putc-IsValid c s v;
    }
