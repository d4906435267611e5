-- ===== src/Vmm/Tests.antt =====
-- Runs of vmm.c on small address spaces.
use piggy_os.Base.{
  ℕ, ◌+◌, ◌-◌, ◌*◌, ◌/◌, ◌%◌, ◌^◌, ◌≤◌, ◌<◌, ◌≡◌, refl, sym, true, false, none, some, arith, ◌==◌,
  if◌then◌else◌,
}
use piggy_os.Base.Bits.{bit, bit-zero}
use piggy_os.Base.Count.{count_none}
use piggy_os.Pmm.{Pmm}
use piggy_os.Pmm.Valid.{taken}
use piggy_os.Pmm.FirstBlocks.{FirstTaken}
use piggy_os.Vmm.{Vm, Directory, Page, blank_page, align, dumb_kmalloc, allocate_page, free_page}
use piggy_os.Vmm.Early.{align_lem, dumb_kmalloc-disjoint}
use piggy_os.Vmm.Translate.{IsEarly, Maps, Rights, allocate_page-Maps, allocate_page-mapped}
use piggy_os.Vmm.Translate.Steps.{translate, Distinct}
use piggy_os.Vmm.Translate.Free.{Unmaps, free_page-Unmaps, free_page-unmapped}
use piggy_os.Vmm.Boot.{blank_directory, vmm_init}
use piggy_os.Vmm.Boot.Start.{IsMapped, vmm_init-IsMapped}
use piggy_os.Vmm.Sbrk.{ksbrk}
use piggy_os.Vmm.Sbrk.Grow.{Grown, ksbrk-inside, ksbrk-limit, ksbrk-Grown}
use piggy_os.Vmm.Sbrk.Shrink.{ksbrk-moves_up}

-- A heap that is never asked.
abbrev no_kmalloc : ℕ → Vm → ℕ × Vm
no_kmalloc size s = (0, s)

abbrev blocks : Pmm
blocks = record {
  max_blocks = 4096;
  used_blocks = 0;
  mem_size = 0x1000000;
  bitmap_addr = 0x200000;
  bitmap = λ _. 0;
  pmm_bitmap = 0xc0200000;
  pmm_bitmap_size = 512;
}

-- One directory at 4096, with the table at 8192 for the addresses below 4 MiB. Its page 3 is mapped
-- to frame 7.
abbrev one_table : ℕ → Directory
one_table d = record blank_directory { ref_tables = λ i. if i == 0 then 8192 else 0 }

abbrev page_three : ℕ → ℕ → Page
page_three t i = if i == 3 then record blank_page { present = true; frame = 7 } else blank_page

abbrev start : Vm
start = record {
  pmm = blocks;
  temp_mem = 0xc0204000;
  paging_enabled = true;
  kheap_enabled = false;
  kernel_page_dir = 4096;
  current_page_dir = 4096;
  boot_page_dir = 0;
  cr3 = 4096;
  pages = page_three;
  dirs = one_table;
  heap_start = 0x1000;
  heap_end = 0x2000;
  heap_curr = 0x1800;
  heap_max = 0x100000;
}

start-Distinct : Distinct (start.dirs 4096)
start-Distinct i j p q = ground arith

-- Before paging is on: the table is at 0xc0008000, and entered.
abbrev entered_table : ℕ → Directory
entered_table d = record {
  tables = λ i. record {
    present = i == 0;
    rw = true;
    user = false;
    page_size = false;
    frame = 8;
    others = 0;
  };
  ref_tables = λ i. if i == 0 then 0xc0008000 else 0;
}

abbrev unpaged : Vm
unpaged = record start { paging_enabled = false; dirs = entered_table }

unpaged-IsEarly : IsEarly 4096 unpaged
unpaged-IsEarly = record {
  no_heap = refl;
  distinct = λ i j p q. ground arith;
  below = λ i. ground arith;
  no_paging = refl;
  entered = record { there = λ i h. ground arith; absent = λ i h. ground arith };
}

unpaged_unmapped : translate 4096 16384 unpaged ≡ none
unfolding translate
unpaged_unmapped = refl

three_mapped : translate 4096 12300 start ≡ some 28684
unfolding translate
three_mapped = refl

four_unmapped : translate 4096 16384 start ≡ none
unfolding translate
four_unmapped = refl

align_lem_run : align 8192 ≡ 8192 / 4096 * 4096 + 4096
align_lem_run = align_lem 8192 (omega arith)

dumb_kmalloc-disjoint_run :
    let (a, s') = dumb_kmalloc 8192 true start in
    let (b, s'') = dumb_kmalloc 5 true s' in
    (a % 4096 ≡ 0) × (b % 4096 ≡ 0) × (0xc0204000 < a) × (a + 8192 ≤ b)
dumb_kmalloc-disjoint_run = dumb_kmalloc-disjoint 8192 5 start refl (omega arith)

allocate_page-Maps_example :
    let s' = allocate_page no_kmalloc 4096 16384 0 true false unpaged in
    Maps 4096 16384 0 unpaged s' × Rights 4096 16384 true false unpaged s'
allocate_page-Maps_example =
    allocate_page-Maps 4096 16384 0 true false no_kmalloc unpaged unpaged-IsEarly (omega arith)
      (omega arith) unpaged_unmapped

allocate_page-mapped_run : allocate_page no_kmalloc 4096 12300 9 true false start ≡ start
allocate_page-mapped_run =
    allocate_page-mapped no_kmalloc 4096 12300 9 true false start three_mapped

free_page-Unmaps_example : Unmaps 4096 12300 true 28684 start (free_page 4096 12300 true start)
free_page-Unmaps_example =
    free_page-Unmaps 4096 12300 true start (omega arith) start-Distinct (omega arith) three_mapped

free_page-unmapped_run : free_page 4096 16384 true start ≡ start
free_page-unmapped_run = free_page-unmapped 4096 16384 true start four_unmapped

abbrev bare : Vm
bare = record start { paging_enabled = false; dirs = λ _. blank_directory }

blocks-FirstTaken : FirstTaken 0 blocks
unfolding bit
blocks-FirstTaken = record {
  valid = record {
    words = λ i. omega arith;
    few = omega arith;
    counted = sym (count_none (taken blocks) 4096 (λ k h. clear k));
  };
  used = refl;
  below = λ b h. absurd (omega arith);
  above = λ b h k. clear b;
}
  where
    clear : (k : ℕ) → taken blocks k ≡ false
    clear k = ground (arith, bit-zero (k % 32))

vmm_init-IsMapped_example : IsMapped unpaged (vmm_init no_kmalloc 3000 unpaged)
vmm_init-IsMapped_example =
    vmm_init-IsMapped no_kmalloc 3000 unpaged (omega arith) refl refl blocks-FirstTaken
      (omega arith) (omega arith)

ksbrk-inside_run :
    ksbrk no_kmalloc 5 1 0x100 start ≡ some (0x1800, record start { heap_curr = 0x1900 })
ksbrk-inside_run =
    ksbrk-inside no_kmalloc 5 0 0x100 start (omega arith) (omega arith) (omega arith) (omega arith)

ksbrk-limit_run : ksbrk no_kmalloc 5 1 0x100000 start ≡ some (0, start)
ksbrk-limit_run =
    ksbrk-limit no_kmalloc 5 0 0x100000 start (omega arith) (omega arith) (omega arith)
      (omega arith) (omega arith)

ksbrk-Grown_example :
    (s' : Vm) × (ksbrk no_kmalloc 5 1 0x1000 start
      ≡ some (0x1800, record s' { heap_end = 0x3000; heap_curr = 0x2800 }))
    × Grown 4096 2 1 start s'
ksbrk-Grown_example =
    ksbrk-Grown no_kmalloc 1 5 0 2 0x1000 start (omega arith) refl (omega arith) (omega arith)
      (omega arith) (omega arith) (omega arith) (omega arith) (omega arith) (omega arith)
      start-Distinct (λ q lo hi. ground arith)

ksbrk-moves_up_run :
    ksbrk no_kmalloc 5 1 (2 ^ 32 - 0x400000) start
    ≡ some (0x1800, record start { heap_curr = 0x1800 + 0x400000 })
ksbrk-moves_up_run =
    ksbrk-moves_up no_kmalloc 4 0 0x400000 start (omega arith) (omega arith) (omega arith)
      (omega arith) (omega arith) (omega arith)
