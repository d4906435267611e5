-- ===== src/Interrupts.antt =====
-- kernel/cpu/isr.c: the table of interrupt handlers and the two dispatchers. A handler is a function
-- on the state `S` of the rest of the kernel, which takes the address of the saved registers.
pub mod Dispatch
mod Tests
use piggy_os.Base.{
  ℕ, ◌+◌, Bool, true, false, Option, none, some, List, [], ◌∷◌, ◌==◌, leb, if◌then◌else◌, update,
}

-- The interrupt controllers are told first: the second one for the numbers from 40 on, and always
-- the first one.
abbrev pub end_of_interrupt : (int_no : ℕ) → List (ℕ × ℕ) → List (ℕ × ℕ)
end_of_interrupt int_no ports =
    let second = if leb 40 int_no then (0xa0, 0x20) ∷ ports else ports in (0x20, 0x20) ∷ second

module _ (S : Type 0) where
  abbrev pub Handler : Type 0
  Handler = ℕ → S → S

  -- The table, with none for NULL, the `ifr` of the current task, the bytes written to ports (port
  -- and byte, the last one first), the numbers of the interrupts that were reported as unhandled, and
  -- the rest of the kernel.
  pub record Cpu : Type 0 where
    pub interrupt_handlers : ℕ → Option Handler
    pub ifr : ℕ
    pub ports : List (ℕ × ℕ)
    pub unhandled : List ℕ
    pub rest : S

module _ {S : Type 0} where
  -- `num` is a byte.
  unfoldable pub int_install_handler : (num : ℕ) → Handler S → Cpu S → Cpu S
  int_install_handler num handler c = record c {
    interrupt_handlers = update c.interrupt_handlers num (some handler);
  }

  unfoldable pub int_uninstall_handler : (num : ℕ) → Cpu S → Cpu S
  int_uninstall_handler num c = record c {
    interrupt_handlers = update c.interrupt_handlers num none;
  }

  -- The handler of `int_no`, with the registers at `r`, or the message.
  abbrev pub handle : Option (Handler S) → (r int_no : ℕ) → Cpu S → Cpu S
  handle none r int_no c = record c { unhandled = int_no ∷ c.unhandled }
  handle (some handler) r int_no c = record c { rest = handler r c.rest }

  unfoldable pub isr_handler : (r int_no : ℕ) → Cpu S → Cpu S
  isr_handler r int_no c = handle (c.interrupt_handlers int_no) r int_no (record c { ifr = r })

  -- The same without a message.
  abbrev pub handle_irq : Option (Handler S) → (r : ℕ) → Cpu S → Cpu S
  handle_irq none r c = c
  handle_irq (some handler) r c = record c { rest = handler r c.rest }

  unfoldable pub irq_handler : (r int_no : ℕ) → Cpu S → Cpu S
  irq_handler r int_no c =
      handle_irq (c.interrupt_handlers int_no) r
        (record c { ifr = r; ports = end_of_interrupt int_no c.ports })
