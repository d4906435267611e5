-- ===== src/Vmm/Translate.antt =====
-- What `allocate_page` and `free_page` do to the addresses that the page tables map.
pub mod Steps
pub mod Free
use piggy_os.Base.{
  ℕ, zero, suc, ◌+◌, ◌-◌, ◌*◌, ◌/◌, ◌%◌, ◌^◌, ◌≤◌, ◌<◌, ◌≡◌, ◌≢◌, refl, sym, ◌∙◌, Bool, true, false,
  not, inl, inr, ◌==◌, if◌then◌else◌, arith, add32, sub32, ap, Option, none, some, Bool-cases,
  ==_iff, ne→==, if_false,
}
use piggy_os.Vmm.{
  Vm, Page, Directory, dir_index, table_index, frame_index, virt2phys, choose_frame, fill_page,
  link_table, new_table, allocate_page, dumb_kmalloc,
}
use piggy_os.Vmm.Early.{dumb_kmalloc-aligned}
use Steps.{
  translate, Distinct, table_of, fill_page_self, fill_page_other, link_table-ref,
  link_table-translate, link_table-Distinct,
}

-- What the processor reads agrees with `ref_tables`: the entry of each table is present, is not one of
-- a large page, and has the number of the page where the table is, `KERN_BASE` below its address; the
-- entry of no table is not present.
pub record Entered (d : Directory) : Type 0 where
  pub there :
      (i : ℕ)
      → d.ref_tables i ≢ 0
      → ((d.tables i).present ≡ true)
        × ((d.tables i).page_size ≡ false)
        × ((d.tables i).frame ≡ sub32 (d.ref_tables i) 0xc0000000 / 4096)
  pub absent : (i : ℕ) → d.ref_tables i ≡ 0 → (d.tables i).present ≡ false

-- Before the heap is set up: the tables of the directory are distinct pages, all of them handed out
-- below `temp_mem`, and entered for the processor; paging is off.
pub record IsEarly (dir : ℕ) (s : Vm) : Type 0 where
  pub no_heap : s.kheap_enabled ≡ false
  pub distinct : Distinct (s.dirs dir)
  pub below : (i : ℕ) → (s.dirs dir).ref_tables i ≤ s.temp_mem / 4096 * 4096
  pub no_paging : s.paging_enabled ≡ false
  pub entered : Entered (s.dirs dir)

-- `s'` is `s` with the page of `va` mapped to the frame asked for, or to a new block where that is
-- 0, and no other page changed.
pub record Maps (dir va frame : ℕ) (s s' : Vm) : Type 0 where
  pub here : translate dir va s' ≡ some ((choose_frame frame s).0 % 2 ^ 20 * 4096 + frame_index va)
  pub others : (va' : ℕ) → va / 4096 ≢ va' / 4096 → translate dir va' s' ≡ translate dir va' s
  pub pmm : s'.pmm ≡ (choose_frame frame s).1.pmm
  pub early : IsEarly dir s'
  pub same_dir : s'.kernel_page_dir ≡ s.kernel_page_dir
  pub temp_mem : (s.temp_mem ≤ s'.temp_mem) × (s'.temp_mem ≤ s.temp_mem + 4096)

-- The rights of the page of `va`, and those of the entry of its table, if that is new.
pub record Rights (dir va : ℕ) (is_kernel is_writable : Bool) (s s' : Vm) : Type 0 where
  pub page :
      ((s'.pages (table_of dir va s') (table_index va)).rw ≡ is_writable)
      × ((s'.pages (table_of dir va s') (table_index va)).user ≡ not is_kernel)
  pub entry :
      table_of dir va s ≡ 0
      → (((s'.dirs dir).tables (dir_index va)).rw ≡ is_writable)
        × (((s'.dirs dir).tables (dir_index va)).user ≡ not is_kernel)

new_table-early :
    (kmalloc_a : ℕ → Vm → ℕ × Vm) (s : Vm)
    → s.kheap_enabled ≡ false
    → s.temp_mem + 4096 < 2 ^ 32
    → new_table kmalloc_a s
      ≡ (s.temp_mem / 4096 * 4096 + 4096, record s { temp_mem = add32 s.temp_mem 4096 })
unfolding new_table
new_table-early kmalloc_a s off room =
    if_false s.kheap_enabled _ _ off ∙ dumb_kmalloc-aligned 4096 s room

-- A new table is entered for the processor.
link_table-Entered :
    (dir va table : ℕ) (is_kernel is_writable : Bool) (s : Vm)
    → table ≢ 0
    → s.paging_enabled ≡ false
    → Entered (s.dirs dir)
    → Entered ((link_table dir va table is_kernel is_writable s).dirs dir)
unfolding link_table virt2phys
link_table-Entered dir va table is_kernel is_writable s real off e = record {
  there = λ i h. ground (arith, e.there i);
  absent = λ i h. ground (arith, e.absent i);
}

module _ (dir va frame : ℕ) (is_kernel is_writable : Bool) where
  -- `fill_page` touches neither the directories nor the early allocator.
  fill_page-frame :
      (s : Vm) (table : ℕ)
      → let s' = fill_page table va frame is_kernel is_writable s in
        (s'.dirs ≡ s.dirs)
        × (s'.temp_mem ≡ s.temp_mem)
        × (s'.kheap_enabled ≡ s.kheap_enabled)
        × (s'.kernel_page_dir ≡ s.kernel_page_dir)
        × (s'.paging_enabled ≡ s.paging_enabled)
  unfolding fill_page
  fill_page-frame s table = ground arith

  fill_page-pmm :
      (s : Vm)
      → table_of dir va s ≢ 0
      → translate dir va s ≡ none
      → (fill_page (table_of dir va s) va frame is_kernel is_writable s).pmm
        ≡ (choose_frame frame s).1.pmm
  unfolding fill_page translate
  fill_page-pmm s some_table unmapped = ground arith

  fill_page-Maps :
      (s : Vm) (table : ℕ)
      → IsEarly dir s
      → table ≡ table_of dir va s
      → table ≢ 0
      → translate dir va s ≡ none
      → Maps dir va frame s (fill_page table va frame is_kernel is_writable s)
  fill_page-Maps s table e same some_table unmapped =
      let (dirs, temp, heap, kernel, paging) = fill_page-frame s table in
      let used : table_of dir va s ≢ 0 = rw (← same) some_table in
      record {
        here = rw same (fill_page_self dir va frame is_kernel is_writable s used unmapped);
        others = rw same (fill_page_other dir va frame is_kernel is_writable s e.distinct used);
        pmm = rw same (fill_page-pmm s used unmapped);
        early = record {
          no_heap = heap ∙ e.no_heap;
          distinct = λ i j. rw dirs (e.distinct i j);
          below = λ i. rw (dirs, temp) (e.below i);
          no_paging = paging ∙ e.no_paging;
          entered = rw dirs e.entered;
        };
        same_dir = kernel;
        temp_mem = omega (arith, temp);
      }

  -- The state in which a new table has been entered, and its page not yet filled in.
  abbrev entered : Vm → Vm
  entered s =
      link_table dir va (s.temp_mem / 4096 * 4096 + 4096) is_kernel is_writable
        (record s { temp_mem = add32 s.temp_mem 4096 })

  translate-moved :
      (r : Vm) (va' : ℕ)
      → translate dir va' (record r { temp_mem = add32 r.temp_mem 4096 }) ≡ translate dir va' r
  translate-moved r va' = unfold translate in refl

  entered-IsEarly : (s : Vm) → IsEarly dir s → s.temp_mem + 8192 ≤ 2 ^ 32 → IsEarly dir (entered s)
  entered-IsEarly s e room = record {
    no_heap = unfold link_table in e.no_heap;
    distinct =
        link_table-Distinct dir va _ is_kernel is_writable (record s { temp_mem = _ }) e.distinct
          λ i. omega (arith, e.below i);
    below = λ i. unfold link_table in ground (arith, e.below i);
    no_paging = unfold link_table in e.no_paging;
    entered =
        link_table-Entered dir va (s.temp_mem / 4096 * 4096 + 4096) is_kernel is_writable
          (record s { temp_mem = add32 s.temp_mem 4096 }) (omega arith) e.no_paging e.entered;
  }

  entered-temp : (s : Vm) → (entered s).temp_mem ≡ add32 s.temp_mem 4096
  unfolding link_table
  entered-temp s = refl

  entered-kernel : (s : Vm) → (entered s).kernel_page_dir ≡ s.kernel_page_dir
  unfolding link_table
  entered-kernel s = refl

  entered-choose :
      (s : Vm)
      → ((choose_frame frame (entered s)).0 ≡ (choose_frame frame s).0)
        × ((choose_frame frame (entered s)).1.pmm ≡ (choose_frame frame s).1.pmm)
  unfolding choose_frame link_table
  entered-choose s = ground arith

  entered-Maps :
      (s : Vm)
      → IsEarly dir s
      → s.temp_mem + 8192 ≤ 2 ^ 32
      → table_of dir va s ≡ 0
      → translate dir va s ≡ none
      → Maps dir va frame s
          (fill_page (s.temp_mem / 4096 * 4096 + 4096) va frame is_kernel is_writable (entered s))
  entered-Maps s e room none_yet unmapped =
      let moved = record s { temp_mem = add32 s.temp_mem 4096 } in
      let table : ℕ = s.temp_mem / 4096 * 4096 + 4096 in
      let new : (i : ℕ) → (s.dirs dir).ref_tables i ≢ table = λ i. omega (arith, e.below i) in
      let same = link_table-translate dir va table is_kernel is_writable moved none_yet new in
      let alike = translate-moved s in
      let (number, manager) = entered-choose s in
      let m =
        fill_page-Maps (entered s) table (entered-IsEarly s e room)
          (sym (link_table-ref dir va table is_kernel is_writable moved)) (omega arith)
          (same va ∙ alike va ∙ unmapped) in
      record {
        here = rw number at m.here;
        others = λ va' ne. m.others va' ne ∙ same va' ∙ alike va';
        pmm = m.pmm ∙ manager;
        early = m.early;
        same_dir = m.same_dir ∙ entered-kernel s;
        temp_mem = omega (arith, (fill_page-frame (entered s) table).1, entered-temp s);
      }

  fill_page-rights :
      (s : Vm) (table : ℕ)
      → table ≡ table_of dir va s
      → table ≢ 0
      → translate dir va s ≡ none
      → let s' = fill_page table va frame is_kernel is_writable s in
        let page = s'.pages (table_of dir va s') (table_index va) in
        (page.rw ≡ is_writable) × (page.user ≡ not is_kernel)
  unfolding fill_page translate choose_frame
  fill_page-rights s table same some_table unmapped = ground arith

  entered-rights :
      (s : Vm)
      → let e = (entered s).dirs dir in
        ((e.tables (dir_index va)).rw ≡ is_writable)
        × ((e.tables (dir_index va)).user ≡ not is_kernel)
  unfolding link_table
  entered-rights s = ground arith

  there-Rights :
      (s : Vm)
      → table_of dir va s ≢ 0
      → translate dir va s ≡ none
      → Rights dir va is_kernel is_writable s
          (fill_page (table_of dir va s) va frame is_kernel is_writable s)
  there-Rights s used unmapped = record {
    page = fill_page-rights s (table_of dir va s) refl used unmapped;
    entry = λ z. absurd (used z);
  }

  new-Rights :
      (s : Vm)
      → IsEarly dir s
      → table_of dir va s ≡ 0
      → translate dir va s ≡ none
      → Rights dir va is_kernel is_writable s
          (fill_page (s.temp_mem / 4096 * 4096 + 4096) va frame is_kernel is_writable (entered s))
  new-Rights s e none_yet unmapped =
      let moved = record s { temp_mem = add32 s.temp_mem 4096 } in
      let table : ℕ = s.temp_mem / 4096 * 4096 + 4096 in
      let same =
        link_table-translate dir va table is_kernel is_writable moved none_yet
          (λ i. omega (arith, e.below i)) in
      let dirs = (fill_page-frame (entered s) table).0 in
      record {
        page =
            fill_page-rights (entered s) table
              (sym (link_table-ref dir va table is_kernel is_writable moved)) (omega arith)
              (same va ∙ translate-moved s va ∙ unmapped);
        entry = λ z. rw dirs (entered-rights s);
      }

  -- Before the heap is set up and paging is on, `allocate_page` of a page that is not mapped maps it,
  -- to the frame asked for or to a new block, and changes no other page; where there is no table, a
  -- new one is entered in the directory that the processor reads, which agrees with `ref_tables` as
  -- before; the page and the new entry have the rights asked for.
  pub allocate_page-Maps :
      (kmalloc_a : ℕ → Vm → ℕ × Vm) (s : Vm)
      → IsEarly dir s
      → dir ≢ 0
      → s.temp_mem + 8192 ≤ 2 ^ 32
      → translate dir va s ≡ none
      → let s' = allocate_page kmalloc_a dir va frame is_kernel is_writable s in
        Maps dir va frame s s' × Rights dir va is_kernel is_writable s s'
  unfolding allocate_page
  allocate_page-Maps kmalloc_a s e real room unmapped = elim (Bool-cases (table_of dir va s == 0)) [
    | inl none_yet ↦
        let zero_table : table_of dir va s ≡ 0 = (==_iff _ 0).0 none_yet in
        rw (ne→== dir 0 real, none_yet, new_table-early kmalloc_a s e.no_heap (omega arith))
          (entered-Maps s e room zero_table unmapped, new-Rights s e zero_table unmapped)
    | inr there ↦
        let used : table_of dir va s ≢ 0 = ground arith in
        rw (ne→== dir 0 real, there)
          (fill_page-Maps s (table_of dir va s) e refl used unmapped, there-Rights s used unmapped)
  ]

-- `allocate_page` of a page that is mapped already changes nothing.
pub allocate_page-mapped :
    (kmalloc_a : ℕ → Vm → ℕ × Vm) (dir va frame : ℕ) (is_kernel is_writable : Bool) (s : Vm)
    {phys : ℕ}
    → translate dir va s ≡ some phys
    → allocate_page kmalloc_a dir va frame is_kernel is_writable s ≡ s
unfolding allocate_page fill_page translate
allocate_page-mapped kmalloc_a dir va frame is_kernel is_writable s e = ground arith
