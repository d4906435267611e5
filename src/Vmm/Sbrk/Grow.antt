-- ===== src/Vmm/Sbrk/Grow.antt =====
-- `ksbrk` with a positive size.
use piggy_os.Base.{
  ℕ, zero, suc, ◌+◌, ◌*◌, ◌/◌, ◌^◌, ◌≤◌, ◌<◌, ◌≡◌, ◌≢◌, refl, sym, ap, ◌∙◌, true, none, some, ◌==◌,
  leb, ltb, if◌then◌else◌, add32, arith, inl, inr, Bool-cases, Option-cases, if_true, if_false,
  ne→==, subst, ==_refl, some-ne-none, some_of_ne_none,
}
use piggy_os.Vmm.{Vm, allocate_page, fill_page}
use piggy_os.Vmm.Sbrk.{Runner, and_then, grow_loop, ksbrk}
use piggy_os.Vmm.Translate.{allocate_page-mapped}
use piggy_os.Vmm.Translate.Steps.{
  translate, Distinct, table_of, fill_page_self, fill_page_other, translate_same_page,
  translate_same_none,
}

-- What stays the same while pages are filled in.
pub record SameHeap (s s' : Vm) : Type 0 where
  pub dirs : s'.dirs ≡ s.dirs
  pub kernel : s'.kernel_page_dir ≡ s.kernel_page_dir
  pub curr : s'.heap_curr ≡ s.heap_curr
  pub max : s'.heap_max ≡ s.heap_max
  pub start : s'.heap_start ≡ s.heap_start

-- The pages of `[first, first + n)` are mapped, and what was mapped is unchanged.
pub record Grown (dir first n : ℕ) (s s' : Vm) : Type 0 where
  pub inside : (va : ℕ) → first ≤ va / 4096 → va / 4096 < first + n → translate dir va s' ≢ none
  pub kept : (va : ℕ) {phys : ℕ} → translate dir va s ≡ some phys → translate dir va s' ≡ some phys
  pub same : SameHeap s s'

module _ (kmalloc_a : ℕ → Vm → ℕ × Vm) where
  fill_page-SameHeap : (table va : ℕ) (s : Vm) → SameHeap s (fill_page table va 0 true true s)
  unfolding fill_page
  fill_page-SameHeap table va s = ground arith

  -- Where the page table is there, the heap is not asked for one.
  allocate_page-fill :
      (dir va : ℕ) (s : Vm)
      → dir ≢ 0
      → table_of dir va s ≢ 0
      → allocate_page kmalloc_a dir va 0 true true s
        ≡ fill_page (table_of dir va s) va 0 true true s
  unfolding allocate_page
  allocate_page-fill dir va s real there =
      if_false (dir == 0) _ _ (ne→== dir 0 real)
      ∙ if_false (table_of dir va s == 0) _ _ (ne→== (table_of dir va s) 0 there)

  fill-Grown :
      (dir p : ℕ) (s : Vm)
      → Distinct (s.dirs dir)
      → table_of dir (p * 4096) s ≢ 0
      → translate dir (p * 4096) s ≡ none
      → Grown dir p 1 s (fill_page (table_of dir (p * 4096) s) (p * 4096) 0 true true s)
  fill-Grown dir p s distinct there unmapped = record {
    inside = λ va lo hi. some-ne-none (
        translate_same_page dir (p * 4096) va _
          (fill_page (table_of dir (p * 4096) s) (p * 4096) 0 true true s) (omega arith)
          (fill_page_self dir (p * 4096) 0 true true s there unmapped));
    kept = λ va e. elim (Bool-cases (va / 4096 == p)) [
      | inl at ↦
          absurd (some-ne-none e (translate_same_none dir (p * 4096) va s (ground arith) unmapped))
      | inr ne ↦ fill_page_other dir (p * 4096) 0 true true s distinct there va (ground arith) ∙ e
    ];
    same = fill_page-SameHeap (table_of dir (p * 4096) s) (p * 4096) s;
  }

  mapped-Grown : (dir p : ℕ) (s : Vm) → translate dir (p * 4096) s ≢ none → Grown dir p 1 s s
  mapped-Grown dir p s there = record {
    inside = λ va lo hi e. there (translate_same_none dir va (p * 4096) s (omega arith) e);
    kept = λ va e. e;
    same = record { dirs = refl; kernel = refl; curr = refl; max = refl; start = refl };
  }

  abbrev page_step : ℕ → Vm → Vm
  page_step p s = allocate_page kmalloc_a s.kernel_page_dir (p * 4096) 0 true true s

  one_page :
      (dir p : ℕ) (s : Vm)
      → dir ≢ 0
      → Distinct (s.dirs dir)
      → table_of dir (p * 4096) s ≢ 0
      → Grown dir p 1 s (allocate_page kmalloc_a dir (p * 4096) 0 true true s)
  one_page dir p s real distinct there = elim (Option-cases (translate dir (p * 4096) s)) [
    | inl unmapped ↦
        rw (allocate_page-fill dir (p * 4096) s real there)
          (fill-Grown dir p s distinct there unmapped)
    | inr (phys, e) ↦
        rw (allocate_page-mapped kmalloc_a dir (p * 4096) 0 true true s e)
          (mapped-Grown dir p s (some-ne-none e))
  ]

  join-SameHeap : (s s' s'' : Vm) → SameHeap s s' → SameHeap s' s'' → SameHeap s s''
  join-SameHeap s s' s'' a b = record {
    dirs = b.dirs ∙ a.dirs;
    kernel = b.kernel ∙ a.kernel;
    curr = b.curr ∙ a.curr;
    max = b.max ∙ a.max;
    start = b.start ∙ a.start;
  }

  join-Grown :
      (dir p n : ℕ) (s s' s'' : Vm)
      → Grown dir p 1 s s'
      → Grown dir (suc p) n s' s''
      → Grown dir p (suc n) s s''
  join-Grown dir p n s s' s'' a b = record {
    inside = λ va lo hi. elim (Bool-cases (va / 4096 == p)) [
      | inl at ↦
          let (phys, e) = some_of_ne_none _ (a.inside va lo (ground arith)) in
          some-ne-none (b.kept va e)
      | inr ne ↦ b.inside va (ground arith) (omega arith)
    ];
    kept = λ va e. b.kept va (a.kept va e);
    same = join-SameHeap s s' s'' a.same b.same;
  }

  loop_done :
      (rounds p up : ℕ) (s : Vm)
      → up ≤ p * 4096
      → grow_loop kmalloc_a (suc rounds) (p * 4096) up s ≡ some (p * 4096, s)
  unfolding grow_loop
  loop_done rounds p up s h = if_false (ltb (p * 4096) up) _ _ (ground arith)

  loop_step :
      (rounds p up : ℕ) (s : Vm)
      → p * 4096 < up
      → suc p * 4096 < 2 ^ 32
      → grow_loop kmalloc_a (suc rounds) (p * 4096) up s
        ≡ grow_loop kmalloc_a rounds (suc p * 4096) up (page_step p s)
  unfolding grow_loop
  loop_step rounds p up s h small =
      let next : add32 (p * 4096) 4096 ≡ suc p * 4096 = omega arith in
      if_true (ltb (p * 4096) up) _ _ (ground arith) ∙ rw next

  ends_at :
      (p n : ℕ) (s : Vm) (q : ℕ)
      → q ≡ p + n
      → ◌≡◌ {A = Runner} (some (q * 4096, s)) (some ((p + n) * 4096, s))
  ends_at p n s q e = ap (λ (t : ℕ). some (t * 4096, s)) e

  none-Grown : (dir p : ℕ) (s : Vm) → Grown dir p 0 s s
  none-Grown dir p s = record {
    inside = λ va lo hi. absurd (omega arith);
    kept = λ va e. e;
    same = record { dirs = refl; kernel = refl; curr = refl; max = refl; start = refl };
  }

  -- The loop ends at the first page boundary that is not below the new boundary.
  grow_loop-Grown :
      (n rounds p up dir : ℕ) (s : Vm)
      → n < rounds
      → dir ≡ s.kernel_page_dir
      → dir ≢ 0
      → Distinct (s.dirs dir)
      → (p + n) * 4096 < 2 ^ 32
      → up ≤ (p + n) * 4096
      → (n ≢ 0 → (p + n) * 4096 < up + 4096)
      → ((q : ℕ) → p ≤ q → q < p + n → table_of dir (q * 4096) s ≢ 0)
      → (s' : Vm) × (grow_loop kmalloc_a rounds (p * 4096) up s ≡ some ((p + n) * 4096, s'))
        × Grown dir p n s s'
  unfolding grow_loop
  grow_loop-Grown n zero p up dir s fits at real distinct small enough least tables =
      absurd (omega arith)
  grow_loop-Grown zero (suc rounds) p up dir s fits at real distinct small enough least tables =
      (s, loop_done rounds p up s (omega arith) ∙ ends_at p 0 s p (omega arith), none-Grown dir p s)
  grow_loop-Grown (suc n) (suc rounds) p up dir s fits at real distinct small enough least tables =
      let s' = page_step p s in
      let one : Grown dir p 1 s s' =
        subst (λ d. Grown dir p 1 s (allocate_page kmalloc_a d (p * 4096) 0 true true s)) at
          (one_page dir p s real distinct (tables p (omega arith) (omega arith))) in
      let (s'', run, rest) =
        grow_loop-Grown n rounds (suc p) up dir s' (omega arith) (at ∙ sym one.same.kernel) real
          (rw one.same.dirs distinct) (omega arith) (omega arith) (λ ne. omega arith)
          (λ q lo hi. rw one.same.dirs (tables q (omega arith) (omega arith))) in
      (
        s'',
        loop_step rounds p up s (omega arith) (omega arith)
            ∙ run
            ∙ ends_at p (suc n) s'' (suc p + n) (omega arith),
        join-Grown dir p n s s' s'' one rest,
      )

  -- A request that stays below the end of the mapped heap only moves the boundary.
  pub ksbrk-inside :
      (rounds fuel size : ℕ) (s : Vm)
      → 0 < size
      → size < 2 ^ 31
      → s.heap_curr + size ≤ s.heap_end
      → s.heap_end < 2 ^ 32
      → ksbrk kmalloc_a rounds (suc fuel) size s
        ≡ some (s.heap_curr, record s { heap_curr = s.heap_curr + size })
  unfolding ksbrk
  ksbrk-inside rounds fuel size s pos small fits end =
      let exact : add32 s.heap_curr size ≡ s.heap_curr + size = omega arith in
      if_false (size == 0) _ _ (ground arith)
      ∙ if_true (ltb size (2 ^ 31)) _ _ (ground arith)
      ∙ if_true (leb (add32 s.heap_curr size) s.heap_end) _ _ (ground arith)
      ∙ ap (λ n. some (s.heap_curr, record s { heap_curr = n })) exact

  -- A request past the limit of the heap is answered NULL, and changes nothing.
  pub ksbrk-limit :
      (rounds fuel size : ℕ) (s : Vm)
      → 0 < size
      → size < 2 ^ 31
      → s.heap_end < s.heap_curr + size
      → s.heap_max < s.heap_curr + size
      → s.heap_curr + size < 2 ^ 32
      → ksbrk kmalloc_a rounds (suc fuel) size s ≡ some (0, s)
  unfolding ksbrk
  ksbrk-limit rounds fuel size s pos small past limit fits =
      if_false (size == 0) _ _ (ground arith)
      ∙ if_true (ltb size (2 ^ 31)) _ _ (ground arith)
      ∙ if_false (leb (add32 s.heap_curr size) s.heap_end) _ _ (ground arith)
      ∙ if_true (ltb s.heap_max (add32 s.heap_curr size)) _ _ (ground arith)

  grown_case :
      (old up : ℕ) (s' : Vm) (runner : ℕ) (loop : Runner) (again : Vm → Runner)
      → s'.heap_curr ≡ old
      → loop ≡ some (runner, s')
      → and_then loop (λ r t.
        if t.heap_curr == old
        then some (old, record t { heap_end = r; heap_curr = up })
        else again t)
        ≡ some (old, record s' { heap_end = runner; heap_curr = up })
  grown_case old up s' runner loop again same run =
      rw run (if_true (s'.heap_curr == old) _ _ (rw same (==_refl old)))

  ksbrk_past :
      (rounds fuel size runner : ℕ) (s s' : Vm)
      → 0 < size
      → size < 2 ^ 31
      → s.heap_end < s.heap_curr + size
      → s.heap_curr + size ≤ s.heap_max
      → s.heap_curr + size < 2 ^ 32
      → s'.heap_curr ≡ s.heap_curr
      → grow_loop kmalloc_a rounds s.heap_end (s.heap_curr + size) s ≡ some (runner, s')
      → ksbrk kmalloc_a rounds (suc fuel) size s
        ≡ some (s.heap_curr, record s' { heap_end = runner; heap_curr = s.heap_curr + size })
  unfolding ksbrk
  ksbrk_past rounds fuel size runner s s' pos small past limit fits same run =
      let exact : s.heap_curr + size ≡ add32 s.heap_curr size = omega arith in
      let answer : ℕ → Runner =
        λ up. some (s.heap_curr, record s' { heap_end = runner; heap_curr = up }) in
      if_false (size == 0) _ _ (ground arith)
      ∙ if_true (ltb size (2 ^ 31)) _ _ (ground arith)
      ∙ if_false (leb (add32 s.heap_curr size) s.heap_end) _ _ (ground arith)
      ∙ if_false (ltb s.heap_max (add32 s.heap_curr size)) _ _ (ground arith)
      ∙ grown_case s.heap_curr (add32 s.heap_curr size) s' runner
          (grow_loop kmalloc_a rounds s.heap_end (add32 s.heap_curr size) s)
          (ksbrk kmalloc_a rounds fuel size) same
          (subst (λ up. grow_loop kmalloc_a rounds s.heap_end up s ≡ some (runner, s')) exact run)
      ∙ ap answer (sym exact)

  -- A request past the mapped heap, which ends at a page boundary, and not past its limit maps the `n`
  -- pages up to the first page boundary that is not below the new end of the heap, if each of these
  -- pages lies under a page table that the directory has already, each table entered once; its answer
  -- is the old end. A growth into 4 MiB without a table, as the first one behind the 12 MiB that
  -- `vmm_init` maps, is not covered.
  pub ksbrk-Grown :
      (n rounds fuel p size : ℕ) (s : Vm)
      → n < rounds
      → s.heap_end ≡ p * 4096
      → 0 < size
      → size < 2 ^ 31
      → s.heap_end < s.heap_curr + size
      → s.heap_curr + size ≤ s.heap_max
      → s.heap_curr + size ≤ (p + n) * 4096
      → (p + n) * 4096 < s.heap_curr + size + 4096
      → (p + n) * 4096 < 2 ^ 32
      → s.kernel_page_dir ≢ 0
      → Distinct (s.dirs s.kernel_page_dir)
      → ((q : ℕ) → p ≤ q → q < p + n → table_of s.kernel_page_dir (q * 4096) s ≢ 0)
      → (s' : Vm) × (ksbrk kmalloc_a rounds (suc fuel) size s
          ≡ some (
            s.heap_curr,
            record s' { heap_end = (p + n) * 4096; heap_curr = s.heap_curr + size },
          ))
        × Grown s.kernel_page_dir p n s s'
  ksbrk-Grown n rounds fuel p size s fits at pos small past limit enough least room real distinct
        tables =
      let up = s.heap_curr + size in
      let (s', run, grown) =
        grow_loop-Grown n rounds p up s.kernel_page_dir s fits refl real distinct room enough
          (λ ne. least) tables in
      (
        s',
        ksbrk_past rounds fuel size ((p + n) * 4096) s s' pos small past limit (omega arith)
            grown.same.curr
            (subst (λ e. grow_loop kmalloc_a rounds e up s ≡ some ((p + n) * 4096, s')) (sym at)
              run),
        grown,
      )
