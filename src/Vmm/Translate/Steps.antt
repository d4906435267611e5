-- ===== src/Vmm/Translate/Steps.antt =====
-- The walk through the tables, and the effect of the steps of `allocate_page` on it.
use piggy_os.Base.{
  ℕ, ◌+◌, ◌*◌, ◌/◌, ◌%◌, ◌^◌, ◌≡◌, ◌≢◌, Bool, ◌==◌, if◌then◌else◌, arith, Option, none, some,
}
use piggy_os.Vmm.{
  Vm, Page, Directory, dir_index, table_index, frame_index, choose_frame, fill_page, link_table,
}

-- The physical address that a present page stands for.
abbrev pub address_in : Page → ℕ → Option ℕ
address_in p va = if p.present then some (p.frame * 4096 + frame_index va) else none

-- The physical address that a directory gives a virtual one, `none` where a table or a page is
-- missing: an independent description of the two-level walk.
unfoldable pub translate : ℕ → ℕ → Vm → Option ℕ
translate dir va s =
    let table = (s.dirs dir).ref_tables (dir_index va) in
    if table == 0 then none else address_in (s.pages table (table_index va)) va

-- No table of the directory is entered twice.
abbrev pub Distinct : Directory → Type 0
Distinct d = (i j : ℕ) → d.ref_tables i ≢ 0 → d.ref_tables i ≡ d.ref_tables j → i ≡ j

pub same_page :
    (va va' : ℕ)
    → dir_index va ≡ dir_index va'
    → table_index va ≡ table_index va'
    → va / 4096 ≡ va' / 4096
same_page va va' p q = omega arith

abbrev pub table_of : ℕ → ℕ → Vm → ℕ
table_of dir va s = (s.dirs dir).ref_tables (dir_index va)

module _ (dir va frame : ℕ) (is_kernel is_writable : Bool) (s : Vm) where
  pub fill_page_self :
      table_of dir va s ≢ 0
      → translate dir va s ≡ none
      → translate dir va (fill_page (table_of dir va s) va frame is_kernel is_writable s)
        ≡ some ((choose_frame frame s).0 % 2 ^ 20 * 4096 + frame_index va)
  unfolding translate fill_page
  fill_page_self some_table unmapped = ground arith

  pub fill_page_other :
      Distinct (s.dirs dir)
      → table_of dir va s ≢ 0
      → (va' : ℕ) → va / 4096 ≢ va' / 4096
      → translate dir va' (fill_page (table_of dir va s) va frame is_kernel is_writable s)
        ≡ translate dir va' s
  unfolding translate fill_page
  fill_page_other distinct some_table va' ne =
      ground (arith, distinct (dir_index va) (dir_index va') some_table, same_page va va')

module _ (dir va table : ℕ) (is_kernel is_writable : Bool) (s : Vm) where
  abbrev pub linked_state : Vm
  linked_state = link_table dir va table is_kernel is_writable s

  pub link_table-ref : (linked_state.dirs dir).ref_tables (dir_index va) ≡ table
  unfolding link_table
  link_table-ref = ground arith

  -- Entering a cleared table that the directory does not use maps nothing and unmaps nothing.
  pub link_table-translate :
      (s.dirs dir).ref_tables (dir_index va) ≡ 0
      → ((i : ℕ) → (s.dirs dir).ref_tables i ≢ table)
      → (va' : ℕ) → translate dir va' linked_state ≡ translate dir va' s
  unfolding translate link_table
  link_table-translate none_yet new va' = ground (arith, new (dir_index va'))

  pub link_table-Distinct :
      Distinct (s.dirs dir)
      → ((i : ℕ) → (s.dirs dir).ref_tables i ≢ table)
      → Distinct (linked_state.dirs dir)
  unfolding link_table
  link_table-Distinct distinct new i j used same = ground (arith, new i, new j, distinct i j)

same_entry :
    (va va' : ℕ)
    → va / 4096 ≡ va' / 4096
    → (dir_index va ≡ dir_index va') × (table_index va ≡ table_index va')
same_entry va va' e = omega arith

-- The addresses of one page are mapped to one frame.
pub translate_same_page :
    (dir va va' frame : ℕ) (s : Vm)
    → va / 4096 ≡ va' / 4096
    → translate dir va s ≡ some (frame * 4096 + frame_index va)
    → translate dir va' s ≡ some (frame * 4096 + frame_index va')
unfolding translate
translate_same_page dir va va' frame s e h = ground (arith, same_entry va va' e)

pub translate_same_none :
    (dir va va' : ℕ) (s : Vm)
    → va / 4096 ≡ va' / 4096
    → translate dir va s ≡ none
    → translate dir va' s ≡ none
unfolding translate
translate_same_none dir va va' s e h = ground (arith, same_entry va va' e)
