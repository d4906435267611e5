-- ===== src/Vmm.antt =====
-- kernel/memory/vmm.c: page directories and page tables, and the heap's `sbrk`.
-- The parent holds the state and the functions on single pages; `Vmm.Region` has the loops and
-- `Vmm.Sbrk` the heap boundary; the other children prove what they do. The messages of `kprintf`
-- are not modelled, and of the control registers only
-- the page directory base is.
pub mod Region
pub mod Sbrk
pub mod Early
pub mod Translate
pub mod Boot
mod Tests
use piggy_os.Base.{
  ℕ, zero, suc, ◌+◌, ◌-◌, ◌*◌, ◌/◌, ◌%◌, ◌^◌, bit_and, bit_or, Bool, true, false, not, ◌&&◌, ◌==◌,
  if◌then◌else◌, add32, sub32, mul32, u32, update,
}
use piggy_os.Pmm.{Pmm, alloc_block, free_block}

-- `page_t`, without the seven unused bits. `frame` has 20 bits.
pub record Page : Type 0 where
  pub present : Bool
  pub rw : Bool
  pub user : Bool
  pub accessed : Bool
  pub dirty : Bool
  pub frame : ℕ

-- `page_dir_entry_t`; `others` stands for the bits that no function writes one by one.
pub record DirEntry : Type 0 where
  pub present : Bool
  pub rw : Bool
  pub user : Bool
  pub page_size : Bool
  pub frame : ℕ
  pub others : ℕ

-- `page_directory_t`; a 0 in `ref_tables` is NULL.
pub record Directory : Type 0 where
  pub tables : ℕ → DirEntry
  pub ref_tables : ℕ → ℕ

-- The variables of the file and the memory that it manages: `pages a` is the page table at virtual
-- address `a`, `dirs a` the directory there. Tables and directories never overlap other data.
pub record Vm : Type 0 where
  pub pmm : Pmm
  pub temp_mem : ℕ
  pub paging_enabled : Bool
  pub kheap_enabled : Bool
  pub kernel_page_dir : ℕ
  pub current_page_dir : ℕ
  pub boot_page_dir : ℕ
  pub cr3 : ℕ
  pub pages : ℕ → ℕ → Page
  pub dirs : ℕ → Directory
  pub heap_start : ℕ
  pub heap_end : ℕ
  pub heap_curr : ℕ
  pub heap_max : ℕ

abbrev pub page_bytes : ℕ
page_bytes = 4096

abbrev pub kern_base : ℕ
kern_base = 0xc0000000

-- `PAGEDIR_INDEX`, `PAGETBL_INDEX` and `PAGEFRAME_INDEX`: `>> k` is a division by `2 ^ k`, and
-- `& (2 ^ k - 1)` the remainder.
abbrev pub dir_index : ℕ → ℕ
dir_index va = va / 2 ^ 22

abbrev pub table_index : ℕ → ℕ
table_index va = va / 2 ^ 12 % 2 ^ 10

abbrev pub frame_index : ℕ → ℕ
frame_index va = va % 2 ^ 12

-- `ALIGN` and `IS_ALIGN` of vmm.h.
unfoldable pub align : ℕ → ℕ
align addr = add32 (bit_and addr 0xfffff000) page_bytes

unfoldable pub is_align : ℕ → Bool
is_align addr = bit_or addr 0xfffff000 == 0

-- Memory before the heap is set up: the answer, and the state with `temp_mem` moved on.
unfoldable pub dumb_kmalloc : ℕ → Bool → Vm → ℕ × Vm
dumb_kmalloc size aligned s = (
  if aligned && not (is_align s.temp_mem) then align s.temp_mem else s.temp_mem,
  record s { temp_mem = add32 s.temp_mem size },
)

-- 0 is NULL.
unfoldable pub virt2phys : ℕ → ℕ → Vm → ℕ
virt2phys dir va s =
    if s.paging_enabled
    then (let table = (s.dirs dir).ref_tables (dir_index va) in
        let page = s.pages table (table_index va) in
        if table == 0
        then 0
        else if page.present
        then add32 (u32 (page.frame * 2 ^ 12)) (frame_index va)
        else 0)
    else sub32 va kern_base

abbrev pub blank_page : Page
blank_page = record {
  present = false;
  rw = false;
  user = false;
  accessed = false;
  dirty = false;
  frame = 0;
}

-- The entry of a new page table at physical address `phys`.
abbrev pub linked : DirEntry → (phys : ℕ) → (is_kernel is_writable : Bool) → DirEntry
linked e phys is_kernel is_writable = record {
  present = true;
  rw = is_writable;
  user = not is_kernel;
  page_size = false;
  frame = phys / 2 ^ 12;
  others = e.others;
}

-- A page as `allocate_page` fills it in.
abbrev pub mapped : Page → (frame : ℕ) → (is_kernel is_writable : Bool) → Page
mapped p frame is_kernel is_writable = record p {
  present = true;
  rw = is_writable;
  user = not is_kernel;
  frame = frame % 2 ^ 20;
}

-- Clear the table and enter it in the directory.
unfoldable pub link_table : (dir va table : ℕ) → (is_kernel is_writable : Bool) → Vm → Vm
link_table dir va table is_kernel is_writable s =
    let cleared = record s { pages = update s.pages table (λ _. blank_page) } in
    let phys = virt2phys s.kernel_page_dir table cleared in
    let d = s.dirs dir in
    record cleared {
      dirs = update s.dirs dir (record d {
        tables =
            update d.tables (dir_index va)
              (linked (d.tables (dir_index va)) phys is_kernel is_writable);
        ref_tables = update d.ref_tables (dir_index va) table;
      });
    }

-- The frame asked for, or a new one from the physical memory manager where it is 0.
unfoldable pub choose_frame : ℕ → Vm → ℕ × Vm
choose_frame frame s =
    let (addr, pmm) = alloc_block s.pmm in
    if frame == 0 then (addr / page_bytes, record s { pmm = pmm }) else (frame, s)

unfoldable pub fill_page : (table va frame : ℕ) → (is_kernel is_writable : Bool) → Vm → Vm
unfolding choose_frame
fill_page table va frame is_kernel is_writable s =
    let (t, s') = choose_frame frame s in
    let page = s'.pages table (table_index va) in
    if (s.pages table (table_index va)).present then s else record s' {
      pages =
          update s'.pages table
            (update (s'.pages table) (table_index va) (mapped page t is_kernel is_writable));
    }

-- `kmalloc_a` of the heap, which calls back into this file, is a parameter here.
module _ (kmalloc_a : ℕ → Vm → ℕ × Vm) where
  unfoldable pub new_table : Vm → ℕ × Vm
  new_table s = if s.kheap_enabled then kmalloc_a page_bytes s else dumb_kmalloc page_bytes true s

  unfoldable pub allocate_page : (dir va frame : ℕ) → (is_kernel is_writable : Bool) → Vm → Vm
  allocate_page dir va frame is_kernel is_writable s =
      let table = (s.dirs dir).ref_tables (dir_index va) in
      let (fresh, s') = new_table s in
      if dir == 0
      then s
      else if table == 0
      then fill_page fresh va frame is_kernel is_writable
          (link_table dir va fresh is_kernel is_writable s')
      else fill_page table va frame is_kernel is_writable s

unfoldable pub free_page : (dir va : ℕ) → Bool → Vm → Vm
free_page dir va free s =
    let table = (s.dirs dir).ref_tables (dir_index va) in
    let page = s.pages table (table_index va) in
    let pmm = if free then free_block (mul32 page.frame page_bytes) s.pmm else s.pmm in
    if dir == s.boot_page_dir
    then s
    else if table == 0
    then s
    else if page.present
    then record s {
      pmm = pmm;
      pages =
          update s.pages table
            (update (s.pages table) (table_index va) (record page { present = false; frame = 0 }));
    }
    else s

unfoldable pub switch_page_directory : ℕ → Vm → Vm
switch_page_directory dir s = record s {
  cr3 = virt2phys s.current_page_dir dir s;
  current_page_dir = dir;
}
