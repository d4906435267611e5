-- ===== src/Kheap/Tests.antt =====
-- Runs of the kernel heap.
use piggy_os.Base.{
  ℕ, ◌+◌, ◌-◌, ◌*◌, ◌/◌, ◌%◌, ◌^◌, ◌≤◌, ◌<◌, ◌≡◌, ◌≢◌, ◌⊎◌, refl, List, [], ◌∷◌, arith, true, false,
  none, some, ◌==◌, if◌then◌else◌,
}
use piggy_os.Pmm.{Pmm}
use piggy_os.Vmm.{Vm, blank_page}
use piggy_os.Vmm.Boot.{blank_directory}
use piggy_os.Kheap.{
  Heap, add_node, remove_node, bestfit, best_loop, is_free, round_up, get_next_block,
  get_prev_block,
}
use piggy_os.Kheap.Malloc.{Answer, malloc, append_block}
use piggy_os.Kheap.Free.{free, block_of}
use piggy_os.Kheap.Early.{kmalloc_int}
use piggy_os.Kheap.Best.{Member, Fits, Least, bestfit-Least}
use piggy_os.Kheap.Linked.{Frees, add_node-Frees}
use piggy_os.Kheap.Unlinked.{remove_node-Frees}
use piggy_os.Kheap.Fresh.{sbrk, malloc-new, malloc-wraps, malloc-overlap}
use piggy_os.Kheap.Reuse.{malloc-reused}
use piggy_os.Kheap.Aligned.{kmalloc_int-aligned, kmalloc_int-disjoint}
use piggy_os.Kheap.Released.{free-Frees, free-joins}

abbrev blocks : Pmm
blocks = record {
  max_blocks = 4096;
  used_blocks = 0;
  mem_size = 0x1000000;
  bitmap_addr = 0x200000;
  bitmap = λ _. 0;
  pmm_bitmap = 0xc0200000;
  pmm_bitmap_size = 512;
}

-- A heap from 0x10000 on, of which 0x10000 bytes are mapped.
abbrev space : Vm
space = record {
  pmm = blocks;
  temp_mem = 0;
  paging_enabled = true;
  kheap_enabled = true;
  kernel_page_dir = 4096;
  current_page_dir = 4096;
  boot_page_dir = 0;
  cr3 = 4096;
  pages = λ _ _. blank_page;
  dirs = λ _. blank_directory;
  heap_start = 0x10000;
  heap_end = 0x20000;
  heap_curr = 0x10000;
  heap_max = 0x100000;
}

abbrev empty : Heap
empty = record {
  head = 0;
  tail = 0;
  freelist = 0;
  placement_address = 0x5001;
  words = λ _. 0;
  vm = space;
}

-- Free blocks of 64 at 1000, of 32 at 2000 and of 48 at 3000, in this order.
abbrev three_words : ℕ → ℕ
three_words a =
    if a == 1000
    then 65
    else if a == 1008
    then 2000
    else if a == 2000
    then 33
    else if a == 2004
    then 1000
    else if a == 2008
    then 3000
    else if a == 3000
    then 49
    else if a == 3004
    then 2000
    else 0

abbrev three : Heap
three = record empty { freelist = 1000; words = three_words }

abbrev three_blocks : List ℕ
three_blocks = 1000 ∷ 2000 ∷ 3000 ∷ []

three-Frees : Frees three three_blocks
three-Frees = ground arith

-- Memory that is moved on by what is asked.
abbrev bump : ℕ → Heap → Answer
bump n h = some (h.vm.heap_curr, record h { vm = record h.vm { heap_curr = h.vm.heap_curr + n } })

abbrev no_kmalloc : ℕ → Vm → ℕ × Vm
no_kmalloc size s = (0, s)

least_of_three : bestfit 4 48 three ≡ some 3000
unfolding bestfit best_loop
least_of_three = refl

none_fits : (size : ℕ) → bestfit 1 size empty ≡ some 0
unfolding bestfit
none_fits size = refl

bestfit-Least_example :
    (b : ℕ) × (bestfit 4 40 three ≡ some b)
    × ((b ≡ 0) ⊎ (Member b three_blocks × Fits 40 three b))
    × Least 40 three b three_blocks
bestfit-Least_example = bestfit-Least 40 three 4 three_blocks (omega arith) (omega arith)

add_node-Frees_run : Frees (add_node 4000 three) (4000 ∷ three_blocks)
add_node-Frees_run = add_node-Frees 4000 three three_blocks (omega arith) (ground arith) three-Frees

remove_node-Frees_example : Frees (remove_node 2000 three) (1000 ∷ 3000 ∷ [])
remove_node-Frees_example = remove_node-Frees 2000 three (1000 ∷ []) (3000 ∷ []) three-Frees

malloc-new_example :
    (s : Heap) × (malloc bump 1 100 empty ≡ some (0x10000 + 48, s))
    × (s.tail ≡ 0x10000)
    × (100 ≤ s.words 0x10000)
    × (is_free 0x10000 s ≡ false)
    × (block_of (0x10000 + 48) ≢ 0x10000)
malloc-new_example =
    malloc-new bump 1 100 0x10000 empty (record empty { vm = record space { heap_curr = 0x10080 } })
      (omega arith) (omega arith) (none_fits (round_up 100)) refl

malloc-wraps_run :
    (s : Heap) × (malloc bump 1 (2 ^ 32 - 1) empty ≡ some (0x10000 + 48, s)) × (s.words 0x10000 ≡ 0)
malloc-wraps_run =
    malloc-wraps bump 1 (2 ^ 32 - 1) 0x10000 empty
      (record empty { vm = record space { heap_curr = 0x10010 } }) (omega arith) (omega arith)
      (none_fits 0) refl

malloc-overlap_example :
    (p a : ℕ) × (s t : Heap) × (malloc (sbrk no_kmalloc 1 1) 1 100 empty ≡ some (p, s))
    × (malloc (sbrk no_kmalloc 1 1) 1 20 s ≡ some (a + 48, t))
    × (p ≤ a)
    × (a + 4 ≤ p + 100)
    × (t.words a ≡ round_up 20)
malloc-overlap_example =
    malloc-overlap no_kmalloc 1 0 1 100 20 empty refl (omega arith) (omega arith) (omega arith)
      (omega arith) (omega arith) (omega arith)

malloc-reused_example :
    (s : Heap) × (malloc bump 4 40 three ≡ some (3000 + 48, s)) × Frees s (1000 ∷ 2000 ∷ [])
malloc-reused_example =
    malloc-reused bump 4 40 3000 three (1000 ∷ 2000 ∷ []) [] (omega arith) least_of_three
      three-Frees (omega arith) (omega arith) (omega arith) (omega arith)

-- The state behind `malloc` of 4196 bytes.
abbrev answered : Heap
answered =
    (append_block 0x10000 (round_up 4196 + 16)
      (record empty { vm = record space { heap_curr = 0x11080 } })).1

answered_lem : malloc bump 1 (100 + 4096) empty ≡ some (0x10000 + 48, answered)
unfolding malloc bestfit append_block
answered_lem = refl

kmalloc_int-aligned_run :
    (a : ℕ) × (kmalloc_int bump 1 100 true false empty ≡ some (a, none, answered))
    × (a % 4096 ≡ 0)
    × (0x10000 + 48 < a)
    × (a + 100 ≤ 0x10000 + 48 + (100 + 4096))
kmalloc_int-aligned_run =
    kmalloc_int-aligned bump 1 100 (0x10000 + 48) empty answered (omega arith) (omega arith)
      (omega arith) answered_lem

-- Before the heap is set up.
abbrev early : Heap
early = record empty { vm = record space { heap_start = 0 } }

kmalloc_int-disjoint_run :
    (p q : ℕ) × (s t : Heap) × (kmalloc_int bump 1 100 true true early ≡ some (p, some p, s))
    × (kmalloc_int bump 1 50 false true s ≡ some (q, some q, t))
    × (0x5001 ≤ p)
    × (p + 100 ≤ q)
    × (t.placement_address ≡ q + 50)
    × (true ≡ true → 4096 ≤ 0x5001 → p % 4096 ≡ 0)
kmalloc_int-disjoint_run = kmalloc_int-disjoint bump 1 100 50 true false early refl (omega arith)

-- A block in use of 32 at 5000, with the last block behind it.
abbrev busy : Heap
busy = record three {
  head = 5000;
  tail = 5000;
  words = λ a. if a == 5000 then 32 else three_words a;
}

busy-Frees : Frees busy three_blocks
busy-Frees = ground arith

busy_alone :
    (is_free (get_prev_block (block_of 5144) busy) busy ≡ false)
    × (is_free (get_next_block (block_of 5144) busy) busy ≡ false)
unfolding get_prev_block get_next_block
busy_alone = (refl, refl)

free-Frees_run : Frees (free 5144 busy) (5000 ∷ three_blocks)
free-Frees_run =
    free-Frees 5144 busy three_blocks (omega arith) busy_alone.0 busy_alone.1 (ground arith)
      (omega arith) (omega arith) busy-Frees

-- A block in use of 32 at 1808: the free block at 2000 stands behind it.
abbrev before : Heap
before = record three { head = 1808; words = λ a. if a == 1808 then 32 else three_words a }

before-Frees : Frees before three_blocks
before-Frees = ground arith

before_next : get_next_block (block_of 1952) before ≡ 2000
unfolding get_next_block
before_next = refl

before_alone : is_free (get_prev_block (block_of 1952) before) before ≡ false
unfolding get_prev_block
before_alone = refl

free-joins_example :
    Frees (free 1952 before) (1808 ∷ 1000 ∷ 3000 ∷ [])
    × ((free 1952 before).words 1808 ≡ (32 + 16 + before.words 2000 / 2 * 2) % 2 ^ 32 / 2 * 2 + 1)
unfolding get_next_block
free-joins_example =
    free-joins 1952 before (1000 ∷ []) (3000 ∷ []) (omega arith) before_alone refl (ground arith)
      (omega arith) (omega arith) before-Frees
