-- ===== src/Descriptors/Vectors.antt =====
-- The interrupt gates that `idt_init` leaves.
use piggy_os.Base.{
  ℕ, zero, suc, ◌+◌, ◌*◌, ◌/◌, ◌%◌, ◌^◌, ◌≡◌, inl, inr, refl, sym, ap, ◌∙◌, arith, Bool, ◌&&◌, ◌||◌,
  ◌==◌, leb, ltb, if◌then◌else◌, if_true, if_false, Bool-cases,
}
use piggy_os.Descriptors.{Idt, IdtDescr, idt_set_descr, set_from, clear_descr, idt_init}

-- A present 32-bit interrupt gate of the kernel's code segment, to the address `target`.
abbrev pub gate : (target : ℕ) → IdtDescr
gate target = record {
  base_low = target % 2 ^ 16;
  base_high = target / 2 ^ 16 % 2 ^ 16;
  seg_sel = 0x08;
  zeros = 0;
  flags = 0x8E;
}

-- The address that the processor jumps to.
abbrev pub target_of : IdtDescr → ℕ
target_of d = d.base_low + d.base_high * 2 ^ 16

set_from-gate :
    (n num k : ℕ) (stub : ℕ → ℕ) (idt : Idt)
    → set_from n num stub idt k ≡ (if leb num k && ltb k (num + n) then gate (stub k) else idt k)
unfolding set_from idt_set_descr
set_from-gate zero num k stub idt =
    sym (if_false (leb num k && ltb k (num + 0)) (gate (stub k)) (idt k) (ground arith))
set_from-gate (suc n) num k stub idt =
    let idt' = idt_set_descr num (stub num) 0x8E idt in
    let test = leb num k && ltb k (num + suc n) in
    let rest = set_from-gate n (suc num) k stub idt' in
    let later = leb (suc num) k && ltb k (suc num + n) in
    rest ∙ (elim (Bool-cases (num == k)) [
      | inl e ↦
          let same : num ≡ k = ground arith in
          if_false later (gate (stub k)) (idt' k) (ground arith)
          ∙ if_true (num == k) (gate (stub num)) (idt k) e
          ∙ ap (λ (t : ℕ). gate (stub t)) same
          ∙ sym (if_true test (gate (stub k)) (idt k) (ground arith))
      | inr e ↦
          let agree : later ≡ test = ground arith in
          ap (λ b. if b then gate (stub k) else idt' k) agree
          ∙ ap (λ d. if test then gate (stub k) else d)
              (if_false (num == k) (gate (stub num)) (idt k) e)
    ])

-- The vectors with a stub.
abbrev pub installed : ℕ → Bool
installed k = ltb k 48 || k == 127

one_gate :
    (stub : ℕ → ℕ) (idt : Idt) (k : ℕ)
    → idt_set_descr 127 (stub 127) 0x8E idt k ≡ (if 127 == k then gate (stub 127) else idt k)
unfolding idt_set_descr
one_gate stub idt k = refl

layers :
    (g : ℕ → IdtDescr) (c : IdtDescr) (k : ℕ)
    → (if leb 32 k && ltb k 48
        then g k
        else if 127 == k
        then g 127
        else if leb 0 k && ltb k 32
        then g k
        else c)
      ≡ (if installed k then g k else c)
layers g c k = ground arith

-- After `idt_init`, vectors 0 to 47 and 127 have a gate to their stub, and the other ones none.
pub idt_init-gate :
    (stub : ℕ → ℕ) (idt : Idt) (k : ℕ)
    → idt_init stub idt k ≡ (if installed k then gate (stub k) else clear_descr)
unfolding idt_init
idt_init-gate stub idt k =
    let cleared : Idt = λ _. clear_descr in
    let first = set_from 32 0 stub cleared in
    let second = idt_set_descr 127 (stub 127) 0x8E first in
    let in_range : Bool = leb 32 k && ltb k 48 in
    set_from-gate 16 32 k stub second
    ∙ ap (λ d. if in_range then gate (stub k) else d)
        (one_gate stub first k
          ∙ ap (λ d. if 127 == k then gate (stub 127) else d) (set_from-gate 32 0 k stub cleared))
    ∙ layers (λ v. gate (stub v)) clear_descr k
