-- ===== src/Vmm/Region/Identity.antt =====
-- `allocate_region` with `iden_map` set, before the heap is set up.
use piggy_os.Base.{
  ℕ, zero, suc, ◌+◌, ◌-◌, ◌*◌, ◌/◌, ◌%◌, ◌^◌, ◌≤◌, ◌<◌, ◌≡◌, ◌≢◌, ◌⊎◌, refl, ◌∙◌, Bool, true, inl,
  inr, ◌==◌, leb, arith, add32, ap, Option, none, some, Bool-cases, if_true, if_false, bit_and,
}
use piggy_os.Base.Bits.{bit_and-high_mask}
use piggy_os.Pmm.{alloc_block}
use piggy_os.Vmm.{Vm, frame_index, choose_frame, allocate_page}
use piggy_os.Vmm.Region.{allocate_loop, allocate_region}
use piggy_os.Vmm.Translate.{IsEarly, Maps, allocate_page-Maps}
use piggy_os.Vmm.Translate.Steps.{translate, translate_same_page}

-- `s'` is `s` with the pages `first` to `last` mapped to the frames of the same numbers, page 0 to
-- the block that the physical memory manager hands out next, and no other page changed.
pub record MapsRange (dir first last : ℕ) (s s' : Vm) : Type 0 where
  pub inside :
      (va : ℕ)
      → first ≤ va / 4096
      → va / 4096 ≤ last
      → va / 4096 ≢ 0
      → translate dir va s' ≡ some va
  pub page_zero :
      (va : ℕ)
      → first ≡ 0
      → va < 4096
      → translate dir va s' ≡ some ((alloc_block s.pmm).0 / 4096 % 2 ^ 20 * 4096 + va)
  pub outside :
      (va : ℕ) → (va / 4096 < first) ⊎ (last < va / 4096) → translate dir va s' ≡ translate dir va s
  pub early : IsEarly dir s'
  pub same_dir : s'.kernel_page_dir ≡ s.kernel_page_dir

choose_given : (frame : ℕ) (s : Vm) → frame ≢ 0 → (choose_frame frame s).0 ≡ frame
unfolding choose_frame
choose_given frame s ne = ground arith

choose_new : (s : Vm) → (choose_frame 0 s).0 ≡ (alloc_block s.pmm).0 / 4096
unfolding choose_frame
choose_new s = refl

module _ (kmalloc_a : ℕ → Vm → ℕ × Vm) (dir : ℕ) (is_kernel is_writable : Bool) where
  abbrev page_step : ℕ → Vm → Vm
  page_step p s = allocate_page kmalloc_a dir (p * 4096) p is_kernel is_writable s

  abbrev range_loop : ℕ → (p last : ℕ) → Vm → Option Vm
  range_loop fuel p last s =
      allocate_loop kmalloc_a fuel dir (p * 4096) (last * 4096) true is_kernel is_writable s

  loop_done : (fuel p last : ℕ) (s : Vm) → last < p → range_loop (suc fuel) p last s ≡ some s
  unfolding allocate_loop
  loop_done fuel p last s h = if_false (leb (p * 4096) (last * 4096)) _ _ (ground arith)

  loop_step :
      (fuel p last : ℕ) (s : Vm)
      → p ≤ last
      → last < 2 ^ 20 - 1
      → range_loop (suc fuel) p last s ≡ range_loop fuel (suc p) last (page_step p s)
  unfolding allocate_loop
  loop_step fuel p last s h small =
      let next : add32 (p * 4096) 4096 ≡ suc p * 4096 = omega arith in
      let number : p * 4096 / 4096 ≡ p = omega arith in
      if_true (leb (p * 4096) (last * 4096)) _ _ (ground arith) ∙ rw (next, number)

  empty-MapsRange :
      (p last : ℕ) (s : Vm) → IsEarly dir s → last < p → p ≢ 0 → MapsRange dir p last s s
  empty-MapsRange p last s e h ne = record {
    inside = λ va a b. absurd (omega arith);
    page_zero = λ va z. absurd (omega arith);
    outside = λ va o. refl;
    early = e;
    same_dir = refl;
  }

  -- All addresses of the page that `Maps` describes.
  whole_page :
      (p va : ℕ) (s s' : Vm)
      → Maps dir (p * 4096) p s s'
      → va / 4096 ≡ p
      → translate dir va s' ≡ some ((choose_frame p s).0 % 2 ^ 20 * 4096 + frame_index va)
  whole_page p va s s' m e =
      translate_same_page dir (p * 4096) va ((choose_frame p s).0 % 2 ^ 20) s' (omega arith) m.here

  identity_page :
      (p va : ℕ) (s s' : Vm)
      → Maps dir (p * 4096) p s s'
      → va / 4096 ≡ p
      → p ≢ 0
      → p < 2 ^ 20
      → translate dir va s' ≡ some va
  identity_page p va s s' m e ne small =
      whole_page p va s s' m e ∙ ap some (omega (arith, choose_given p s ne))

  -- Page `p`, then the pages behind it.
  join-MapsRange :
      (p last : ℕ) (s s' s'' : Vm)
      → p ≤ last
      → last < 2 ^ 20
      → Maps dir (p * 4096) p s s'
      → MapsRange dir (suc p) last s' s''
      → MapsRange dir p last s s''
  join-MapsRange p last s s' s'' h small m r = record {
    inside = λ va a b ne. elim (Bool-cases (va / 4096 == p)) [
      | inl e ↦
          let at : va / 4096 ≡ p = ground arith in
          r.outside va (inl (omega arith))
          ∙ identity_page p va s s' m at (omega arith) (omega arith)
      | inr e ↦ r.inside va (ground arith) b ne
    ];
    page_zero = λ va z low.
        let at : va / 4096 ≡ p = omega arith in
        r.outside va (inl (omega arith))
        ∙ whole_page p va s s' m at
        ∙ ap some (first_page p va z low);
    outside = λ va o. r.outside va (omega arith) ∙ m.others va (omega arith);
    early = r.early;
    same_dir = r.same_dir ∙ m.same_dir;
  }
    where
      first_page :
          (q va : ℕ)
          → q ≡ 0
          → va < 4096
          → (choose_frame q s).0 % 2 ^ 20 * 4096 + frame_index va
            ≡ (alloc_block s.pmm).0 / 4096 % 2 ^ 20 * 4096 + va
      first_page q va z low = rw z (omega (arith, choose_new s))

  -- `n` pages are left, and the early memory has room for their tables.
  loop-MapsRange :
      (n fuel p last : ℕ) (s : Vm)
      → n < fuel
      → suc last ≡ p + n
      → last < 2 ^ 20 - 1
      → dir ≢ 0
      → IsEarly dir s
      → s.temp_mem + n * 4096 + 8192 ≤ 2 ^ 32
      → ((va : ℕ) → p ≤ va / 4096 → va / 4096 ≤ last → translate dir va s ≡ none)
      → (s' : Vm) × (range_loop fuel p last s ≡ some s') × MapsRange dir p last s s'
  loop-MapsRange n zero p last s fits count small real e room free = absurd (omega arith)
  loop-MapsRange zero (suc fuel) p last s fits count small real e room free = (
    s,
    loop_done fuel p last s (omega arith),
    empty-MapsRange p last s e (omega arith) (omega arith),
  )
  loop-MapsRange (suc n) (suc fuel) p last s fits count small real e room free =
      let m =
        (allocate_page-Maps dir (p * 4096) p is_kernel is_writable kmalloc_a s e real (omega arith)
          (free (p * 4096) (omega arith) (omega arith))).0 in
      let s' = page_step p s in
      let (s'', run, r) =
        loop-MapsRange n fuel (suc p) last s' (omega arith) (omega arith) small real m.early
          (omega (arith, m.temp_mem))
          (λ va a b. m.others va (omega arith) ∙ free va (omega arith) b) in
      (
        s'',
        loop_step fuel p last s (omega arith) small ∙ run,
        join-MapsRange p last s s' s'' (omega arith) (omega arith) m r,
      )

  pub allocate_region-MapsRange :
      (fuel start_va end_va : ℕ) (s : Vm)
      → end_va / 4096 - start_va / 4096 + 1 < fuel
      → start_va ≤ end_va
      → end_va < 2 ^ 32 - 4096
      → dir ≢ 0
      → IsEarly dir s
      → s.temp_mem + (end_va / 4096 - start_va / 4096 + 3) * 4096 ≤ 2 ^ 32
      → ((va : ℕ)
          → start_va / 4096 ≤ va / 4096
          → va / 4096 ≤ end_va / 4096
          → translate dir va s ≡ none)
      → (s' : Vm) × (allocate_region kmalloc_a fuel dir start_va end_va true is_kernel is_writable s
          ≡ some s')
        × MapsRange dir (start_va / 4096) (end_va / 4096) s s'
  unfolding allocate_region
  allocate_region-MapsRange fuel start_va end_va s fits order small real e room free =
      let first : bit_and start_va 0xfffff000 ≡ start_va / 4096 * 4096 =
        bit_and-high_mask 12 20 start_va (omega arith) in
      let last : bit_and end_va 0xfffff000 ≡ end_va / 4096 * 4096 =
        bit_and-high_mask 12 20 end_va (omega arith) in
      rw (first, last)
        (loop-MapsRange (end_va / 4096 - start_va / 4096 + 1) fuel (start_va / 4096) (end_va / 4096)
          s fits (omega arith) (omega arith) real e (omega arith) free)
