-- ===== src/Interrupts/Tests.antt =====
-- Runs of the interrupt dispatch.
use piggy_os.Base.{ℕ, ◌+◌, ◌≡◌, none, [], ◌∷◌}
use piggy_os.Interrupts.{
  Cpu, Handler, int_install_handler, int_uninstall_handler, isr_handler, irq_handler,
}
use piggy_os.Interrupts.Dispatch.{irq_handler-installed, handlers-uninstalled}

-- The rest of the kernel is a number; nothing is installed.
abbrev bare : Cpu ℕ
bare = record { interrupt_handlers = λ _. none; ifr = 0; ports = []; unhandled = []; rest = 7 }

abbrev adding : Handler ℕ
adding r s = s + r

irq_handler-installed_example :
    let c' = irq_handler 100 44 (int_install_handler 44 adding bare) in
    (c'.rest ≡ 107)
    × (c'.ports ≡ (0x20, 0x20) ∷ (0xa0, 0x20) ∷ [])
    × (c'.ifr ≡ 100)
    × (c'.unhandled ≡ [])
irq_handler-installed_example = irq_handler-installed 100 44 44 adding bare

handlers-uninstalled_run :
    let c' = int_uninstall_handler 44 bare in
    ((irq_handler 100 44 c').rest ≡ 7)
    × ((isr_handler 100 44 c').rest ≡ 7)
    × ((isr_handler 100 44 c').unhandled ≡ 44 ∷ [])
    × ((irq_handler 100 44 c').unhandled ≡ [])
handlers-uninstalled_run = handlers-uninstalled 100 44 bare
