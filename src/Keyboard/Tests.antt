-- ===== src/Keyboard/Tests.antt =====
-- Runs of the keyboard's handler.
use piggy_os.Base.{◌-◌, ◌≡◌, refl, arith, some, if◌then◌else◌}
use piggy_os.Keyboard.{keyboard_irq_handler, normalmap}
use piggy_os.Keyboard.Letters.{upper, keyboard_irq_handler-letter}
use piggy_os.Keyboard.Modifiers.{tapped, expected, keyboard_irq_handler-tap}

keyboard_irq_handler-letter_example :
    keyboard_irq_handler 0x1E 1
    ≡ (1, some (if upper 1 then normalmap 0x1E - 32 else normalmap 0x1E))
keyboard_irq_handler-letter_example = keyboard_irq_handler-letter 0x1E 1 refl (omega arith) refl

-- The key A with the shift key.
capital : keyboard_irq_handler 0x1E 1 ≡ (1, some 65)
unfolding keyboard_irq_handler
capital = refl

keyboard_irq_handler-tap_run : tapped 0x3A 5 ≡ expected 0x3A 5
keyboard_irq_handler-tap_run =
    keyboard_irq_handler-tap 0x3A 5 (omega arith) (omega arith) (omega arith)
