-- ===== src/Vga/Tests.antt =====
-- Runs of the text screen.
use piggy_os.Base.{◌≤◌, ◌<◌, ◌≡◌, refl, bit_or, [], ◌∷◌, arith}
use piggy_os.Vga.{Vga, vga_putc, vga_puts, vga_clear, blank}
use piggy_os.Vga.Cursor.{IsValid, vga_putc-IsValid}
use piggy_os.Vga.Screen.{Printed, vga_clear-blank, vga_putc-outside, vga_putc-Printed}

-- A screen of zeros with the cursor in its last cell.
abbrev corner : Vga
corner = record { screen_buffer = λ _. 0; color = 0xf00; cur_x = 79; cur_y = 24; ports = [] }

corner-IsValid : IsValid corner
corner-IsValid = record { column = omega arith; row = omega arith }

vga_putc-IsValid_run : IsValid (vga_putc 10 corner)
vga_putc-IsValid_run = vga_putc-IsValid 10 corner corner-IsValid

vga_putc-Printed_example : Printed (bit_or 65 0xf00) 1999 corner (vga_putc 65 corner)
vga_putc-Printed_example = vga_putc-Printed 65 corner corner-IsValid refl

vga_putc-outside_run : (vga_putc 65 corner).screen_buffer 2000 ≡ 0
vga_putc-outside_run = vga_putc-outside 65 2000 corner corner-IsValid (omega arith)

vga_clear-blank_run :
    ((7 < 2000 → (vga_clear corner).screen_buffer 7 ≡ blank)
      × (2000 ≤ 7 → (vga_clear corner).screen_buffer 7 ≡ 0))
vga_clear-blank_run = vga_clear-blank corner 7

rolled : (vga_puts (65 ∷ 66 ∷ []) corner).screen_buffer 1919 ≡ bit_or 65 0xf00
unfolding vga_puts vga_putc
rolled = refl
