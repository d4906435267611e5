-- ===== src/Vmm/Boot/Blocks.antt =====
-- The loops of `vmm_init` map consecutive pages to consecutive blocks.
use piggy_os.Base.{
  ℕ, zero, suc, ◌+◌, ◌-◌, ◌*◌, ◌/◌, ◌%◌, ◌^◌, ◌≤◌, ◌<◌, ◌≡◌, ◌≢◌, ◌⊎◌, refl, sym, ◌∙◌, Bool, true,
  inl, inr, ltb, arith, add32, ap, subst, Option, none, some, Bool-cases, if_true, if_false,
}
use native.Mathlib.Nat.{add_assoc, add-zero}
use native.Mathlib.Numerals.{add-one}
use piggy_os.Pmm.{Pmm, alloc_block}
use piggy_os.Pmm.Valid.{covered}
use piggy_os.Pmm.FirstBlocks.{FirstTaken, alloc_block-FirstTaken, alloc_block-max_blocks}
use piggy_os.Vmm.{Vm, choose_frame, allocate_page}
use piggy_os.Vmm.Boot.{kernel_loop}
use piggy_os.Vmm.Translate.{IsEarly, Maps, allocate_page-Maps}
use piggy_os.Vmm.Translate.Steps.{translate, translate_same_page}

-- `s'` is `s` with the `n` pages from `first` on mapped to the blocks from `block` on, no other
-- page changed, and the next block to be handed out the one behind them.
pub record MapsBlocks (dir first n block : ℕ) (s s' : Vm) : Type 0 where
  pub inside :
      (va : ℕ)
      → first ≤ va / 4096
      → va / 4096 < first + n
      → translate dir va s' ≡ some ((va / 4096 + block - first) * 4096 + va % 4096)
  pub outside :
      (va : ℕ)
      → (va / 4096 < first) ⊎ (first + n ≤ va / 4096)
      → translate dir va s' ≡ translate dir va s
  pub blocks : FirstTaken (block + n) s'.pmm
  pub same_max : s'.pmm.max_blocks ≡ s.pmm.max_blocks
  pub early : IsEarly dir s'
  pub same_dir : s'.kernel_page_dir ≡ s.kernel_page_dir
  pub temp_mem : s'.temp_mem ≤ s.temp_mem + n * 4096

choose_block :
    (s : Vm)
    → ((choose_frame 0 s).0 ≡ (alloc_block s.pmm).0 / 4096)
      × ((choose_frame 0 s).1.pmm ≡ (alloc_block s.pmm).1)
unfolding choose_frame
choose_block s = (refl, refl)

-- One range behind another.
pub join-MapsBlocks :
    (dir first n m block : ℕ) (s s' s'' : Vm)
    → MapsBlocks dir first n block s s'
    → MapsBlocks dir (first + n) m (block + n) s' s''
    → MapsBlocks dir first (n + m) block s s''
join-MapsBlocks dir first n m block s s' s'' a b = record {
  inside = λ va lo hi. elim (Bool-cases (ltb (va / 4096) (first + n))) [
    | inl e ↦ b.outside va (inl (ground arith)) ∙ a.inside va lo (ground arith)
    | inr e ↦ b.inside va (ground arith) (omega arith) ∙ ap some (omega arith)
  ];
  outside = λ va o. b.outside va (omega arith) ∙ a.outside va (omega arith);
  blocks = rw (← add_assoc block n m) b.blocks;
  same_max = b.same_max ∙ a.same_max;
  early = b.early;
  same_dir = b.same_dir ∙ a.same_dir;
  temp_mem = omega (arith, a.temp_mem, b.temp_mem);
}

none-MapsBlocks :
    (dir first block : ℕ) (s : Vm)
    → IsEarly dir s
    → FirstTaken block s.pmm
    → MapsBlocks dir first 0 block s s
none-MapsBlocks dir first block s e f = record {
  inside = λ va lo hi. absurd (omega arith);
  outside = λ va o. refl;
  blocks = rw (add-zero block) f;
  same_max = refl;
  early = e;
  same_dir = refl;
  temp_mem = omega arith;
}

module _ (kmalloc_a : ℕ → Vm → ℕ × Vm) (is_writable : Bool) where
  abbrev page_step : ℕ → Vm → Vm
  page_step p s = allocate_page kmalloc_a s.kernel_page_dir (p * 4096) 0 true is_writable s

  abbrev block_loop : ℕ → (p end : ℕ) → Vm → Option Vm
  block_loop fuel p end s = kernel_loop kmalloc_a fuel (p * 4096) (end * 4096) is_writable s

  loop_done : (fuel p end : ℕ) (s : Vm) → end ≤ p → block_loop (suc fuel) p end s ≡ some s
  unfolding kernel_loop
  loop_done fuel p end s h = if_false (ltb (p * 4096) (end * 4096)) _ _ (ground arith)

  loop_step :
      (fuel p end : ℕ) (s : Vm)
      → p < end
      → end < 2 ^ 20
      → block_loop (suc fuel) p end s ≡ block_loop fuel (suc p) end (page_step p s)
  unfolding kernel_loop
  loop_step fuel p end s h small =
      let next : add32 (p * 4096) 4096 ≡ suc p * 4096 = omega arith in
      if_true (ltb (p * 4096) (end * 4096)) _ _ (ground arith) ∙ rw next

  -- One page, mapped to the next block.
  one_block :
      (p block : ℕ) (s s' : Vm)
      → Maps s.kernel_page_dir (p * 4096) 0 s s'
      → FirstTaken block s.pmm
      → block < covered s.pmm
      → MapsBlocks s.kernel_page_dir p 1 block s s'
  one_block p block s s' m f room =
      let (addr, next) = alloc_block-FirstTaken block s.pmm f room in
      let (number, manager) = choose_block s in
      let frame : (choose_frame 0 s).0 % 2 ^ 20 ≡ block =
        omega (arith, number, addr, f.valid.few) in
      record {
        inside = λ va a b.
            translate_same_page s.kernel_page_dir (p * 4096) va ((choose_frame 0 s).0 % 2 ^ 20) s'
              (omega arith) m.here
            ∙ ap some (omega (arith, frame));
        outside = λ va o. m.others va (omega arith);
        blocks = rw (m.pmm, manager) (rw plus_one next);
        same_max = ap (λ (q : Pmm). q.max_blocks) (m.pmm ∙ manager) ∙ alloc_block-max_blocks s.pmm;
        early = m.early;
        same_dir = m.same_dir;
        temp_mem = omega (arith, m.temp_mem);
      }
    where
      plus_one : block + 1 ≡ suc block
      plus_one = omega arith

  one_step :
      (p block : ℕ) (s : Vm)
      → IsEarly s.kernel_page_dir s
      → s.kernel_page_dir ≢ 0
      → FirstTaken block s.pmm
      → block < covered s.pmm
      → s.temp_mem + 8192 ≤ 2 ^ 32
      → translate s.kernel_page_dir (p * 4096) s ≡ none
      → MapsBlocks s.kernel_page_dir p 1 block s (page_step p s)
  one_step p block s e real f room mem free =
      one_block p block s (page_step p s)
        (allocate_page-Maps s.kernel_page_dir (p * 4096) 0 true is_writable kmalloc_a s e real mem
          free).0
        f room

  suc-eq-one-add : (n : ℕ) → suc n ≡ 1 + n
  suc-eq-one-add n = omega arith

  -- `n` pages from page `p` on, with enough free blocks and enough early memory for their tables.
  pub block_loop-MapsBlocks :
      (n fuel p end block dir : ℕ) (s : Vm)
      → n < fuel
      → dir ≡ s.kernel_page_dir
      → end ≡ p + n
      → end < 2 ^ 20
      → dir ≢ 0
      → IsEarly dir s
      → FirstTaken block s.pmm
      → block + n ≤ covered s.pmm
      → s.temp_mem + n * 4096 + 8192 ≤ 2 ^ 32
      → ((va : ℕ) → p ≤ va / 4096 → va / 4096 < end → translate dir va s ≡ none)
      → (s' : Vm) × (block_loop fuel p end s ≡ some s') × MapsBlocks dir p n block s s'
  block_loop-MapsBlocks n zero p end block dir s fits at count small real e f room mem free =
      absurd (omega arith)
  block_loop-MapsBlocks zero (suc fuel) p end block dir s fits at count small real e f room mem
        free =
      (s, loop_done fuel p end s (omega arith), none-MapsBlocks dir p block s e f)
  block_loop-MapsBlocks (suc n) (suc fuel) p end block dir s fits at count small real e f room mem
        free =
      let s' = page_step p s in
      let one : MapsBlocks dir p 1 block s s' =
        subst (λ d. MapsBlocks d p 1 block s s') (sym at)
          (one_step p block s (subst (λ d. IsEarly d s) at e) (subst (λ d. d ≢ 0) at real) f
            (omega arith) (omega arith)
            (subst (λ d. translate d (p * 4096) s ≡ none) at
              (free (p * 4096) (omega arith) (omega arith)))) in
      let (s'', run, rest) =
        block_loop-MapsBlocks n fuel (p + 1) end (block + 1) dir s' (omega arith)
          (at ∙ sym one.same_dir) (omega arith) small real one.early one.blocks
          (omega (arith, one.same_max)) (omega (arith, one.temp_mem))
          (λ va a b. one.outside va (inr a) ∙ free va (omega arith) b) in
      (
        s'',
        loop_step fuel p end s (omega arith) small ∙ rw (← add-one p) run,
        rw (suc-eq-one-add n) (join-MapsBlocks dir p 1 n block s s' s'' one rest),
      )
