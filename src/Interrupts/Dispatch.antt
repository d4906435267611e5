-- ===== src/Interrupts/Dispatch.antt =====
-- What an interrupt does after handlers were installed and taken out.
use piggy_os.Base.{
  ℕ, ◌≡◌, refl, sym, ap, ◌∙◌, Bool, true, false, Bool-cases, inl, inr, Option, none, some, List,
  ◌∷◌, update_self, ◌==◌, leb, if◌then◌else◌,
}
use piggy_os.Interrupts.{
  Cpu, Handler, int_install_handler, int_uninstall_handler, isr_handler, irq_handler, handle,
  handle_irq, end_of_interrupt,
}

told :
    (m : ℕ) (ports : List (ℕ × ℕ))
    → end_of_interrupt m ports
      ≡ (if leb 40 m then (0x20, 0x20) ∷ (0xa0, 0x20) ∷ ports else (0x20, 0x20) ∷ ports)
told m ports = elim (Bool-cases (leb 40 m)) [ inl e ↦ rw e refl | inr e ↦ rw e refl ]

module _ {S : Type 0} where
  -- What a handler, if there is one, makes of the rest of the kernel.
  ran : Option (Handler S) → (r : ℕ) → S → S
  ran none r s = s
  ran (some h) r s = h r s

  handle_irq-fields :
      (o : Option (Handler S)) (r : ℕ) (c : Cpu S)
      → let c' = handle_irq o r c in
        (c'.rest ≡ ran o r c.rest)
        × (c'.ports ≡ c.ports)
        × (c'.ifr ≡ c.ifr)
        × (c'.unhandled ≡ c.unhandled)
  unfolding ran
  handle_irq-fields none r c = (refl, refl, refl, refl)
  handle_irq-fields (some h) r c = (refl, refl, refl, refl)

  irq_handler-fields :
      (r m : ℕ) (c : Cpu S)
      → let c' = irq_handler r m c in
        (c'.rest ≡ ran (c.interrupt_handlers m) r c.rest)
        × (c'.ports
            ≡ (if leb 40 m then (0x20, 0x20) ∷ (0xa0, 0x20) ∷ c.ports else (0x20, 0x20) ∷ c.ports))
        × (c'.ifr ≡ r)
        × (c'.unhandled ≡ c.unhandled)
  unfolding irq_handler
  irq_handler-fields r m c =
      let begun = record c { ifr = r; ports = end_of_interrupt m c.ports } in
      let fields = handle_irq-fields (c.interrupt_handlers m) r begun in
      (fields.0, fields.1 ∙ told m c.ports, fields.2, fields.3)

  -- With a handler installed for `n`, the interrupt `m` runs that handler if it is `n`, on the rest of
  -- the kernel and with the registers given, and else does what it did before; the controllers are
  -- told in either case, the first one last, and the second one from 40 on.
  pub irq_handler-installed :
      (r n m : ℕ) (h : Handler S) (c : Cpu S)
      → let c' = irq_handler r m (int_install_handler n h c) in
        (c'.rest ≡ (if n == m then h r c.rest else (irq_handler r m c).rest))
        × (c'.ports
            ≡ (if leb 40 m then (0x20, 0x20) ∷ (0xa0, 0x20) ∷ c.ports else (0x20, 0x20) ∷ c.ports))
        × (c'.ifr ≡ r)
        × (c'.unhandled ≡ c.unhandled)
  unfolding int_install_handler ran
  irq_handler-installed r n m h c =
      let fields = irq_handler-fields r m (int_install_handler n h c) in
      (fields.0 ∙ chosen (n == m) ∙ otherwise (n == m), fields.1, fields.2, fields.3)
    where
      chosen :
          (b : Bool)
          → ran (if b then some h else c.interrupt_handlers m) r c.rest
            ≡ (if b then h r c.rest else ran (c.interrupt_handlers m) r c.rest)
      chosen true = refl
      chosen false = refl

      otherwise :
          (b : Bool)
          → (if b then h r c.rest else ran (c.interrupt_handlers m) r c.rest)
            ≡ (if b then h r c.rest else (irq_handler r m c).rest)
      otherwise true = refl
      otherwise false = sym (irq_handler-fields r m c).0

  -- With the handler for `n` taken out, the interrupt `n` leaves the rest of the kernel alone; as an
  -- exception it is reported.
  pub handlers-uninstalled :
      (r n : ℕ) (c : Cpu S)
      → let c' = int_uninstall_handler n c in
        ((irq_handler r n c').rest ≡ c.rest)
        × ((isr_handler r n c').rest ≡ c.rest)
        × ((isr_handler r n c').unhandled ≡ n ∷ c.unhandled)
        × ((irq_handler r n c').unhandled ≡ c.unhandled)
  unfolding int_uninstall_handler isr_handler ran
  handlers-uninstalled r n c =
      let table = int_uninstall_handler n c in
      let gone : table.interrupt_handlers n ≡ none = update_self c.interrupt_handlers n none in
      let fields = irq_handler-fields r n table in
      let begun = record table { ifr = r } in
      (
        fields.0 ∙ ap (λ o. ran o r c.rest) gone,
        ap (λ o. (handle o r n begun).rest) gone,
        ap (λ o. (handle o r n begun).unhandled) gone,
        fields.3,
      )
