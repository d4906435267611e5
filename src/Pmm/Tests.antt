-- ===== src/Pmm/Tests.antt =====
-- Runs of pmm.c on small states.
use piggy_os.Base.{ℕ, ◌+◌, ◌*◌, ◌/◌, ◌<◌, ◌≡◌, ◌≢◌, refl, true, [], ◌∷◌, arith, ◌==◌, if◌then◌else◌}
use piggy_os.Base.Bits.{bit}
use piggy_os.Base.Count.{count}
use piggy_os.Multiboot.{Memory, next_tag}
use piggy_os.Multiboot.Tags.{IsChain, first_of_type}
use piggy_os.Pmm.{Pmm, alloc_block, free_block}
use piggy_os.Pmm.Valid.{taken, IsValid}
use piggy_os.Pmm.Alloc.{
  Took, alloc_block-first_fit, alloc_block-out_of_memory, alloc_block-partial_word,
}
use piggy_os.Pmm.Free.{Gave, free_block-Gave, free_block-alloc_block}
use piggy_os.Pmm.Init.{panic, pmm_init, set_up, set_up-no_panic}
use piggy_os.Pmm.Init.Start.{IsStarted, pmm_init-IsStarted}

abbrev state : (max used : ℕ) → (ℕ → ℕ) → Pmm
state max used words = record {
  max_blocks = max;
  used_blocks = used;
  mem_size = max * 4096;
  bitmap_addr = 0;
  bitmap = words;
  pmm_bitmap = 0xc0200000;
  pmm_bitmap_size = max / 8;
}

abbrev empty : Pmm
empty = state 70 0 (λ _. 0)

abbrev full : Pmm
full = state 70 64 (λ _. 0xffffffff)

empty-IsValid : IsValid empty
unfolding count bit
empty-IsValid = record { words = λ i. omega arith; few = omega arith; counted = refl }

full-IsValid : IsValid full
unfolding count bit
full-IsValid = record { words = λ i. omega arith; few = omega arith; counted = refl }

second_block : (alloc_block (alloc_block empty).1).0 ≡ 4096
unfolding alloc_block
second_block = refl

last_used : taken full 63 ≡ true
unfolding bit
last_used = refl

alloc_block-first_fit_example :
    let (addr, s') = alloc_block empty in
    (b : ℕ) × (addr ≡ b * 4096)
    × (b < 64)
    × ((k : ℕ) → k < b → taken empty k ≡ true)
    × Took empty b s'
    × IsValid s'
alloc_block-first_fit_example = alloc_block-first_fit empty empty-IsValid (omega arith)

alloc_block-out_of_memory_run :
    alloc_block (state 64 64 (λ _. 0xffffffff)) ≡ (0, state 64 64 (λ _. 0xffffffff))
alloc_block-out_of_memory_run =
    alloc_block-out_of_memory (state 64 64 (λ _. 0xffffffff)) (omega arith) refl

alloc_block-partial_word_run :
    let (addr, s') = alloc_block full in
    (addr ≡ 0) × (taken full 0 ≡ true) × (s'.used_blocks ≡ 65) × (¬ (IsValid s'))
alloc_block-partial_word_run =
    alloc_block-partial_word full full-IsValid refl (omega arith) (omega arith)

free_block-Gave_run :
    Gave full 63 (free_block (63 * 4096 + 5) full) × IsValid (free_block (63 * 4096 + 5) full)
free_block-Gave_run = free_block-Gave (63 * 4096 + 5) full full-IsValid (omega arith) last_used

free_block-alloc_block_example : let (addr, s') = alloc_block empty in free_block addr s' ≡ empty
free_block-alloc_block_example = free_block-alloc_block empty empty-IsValid (omega arith)

-- At address 8 a module tag that ends at 0x180000, then the memory sizes, then the end tag.
abbrev tag_words : Memory
tag_words a =
    if a == 8
    then 3
    else if a == 12
    then 17
    else if a == 16
    then 0x170000
    else if a == 20
    then 0x180000
    else if a == 32
    then 4
    else if a == 36
    then 16
    else if a == 40
    then 640
    else if a == 44
    then 0x10000
    else if a == 52
    then 8
    else 0

tag_words-IsChain : IsChain tag_words 8 (8 ∷ 32 ∷ 48 ∷ [])
unfolding next_tag
tag_words-IsChain = (refl, ground arith, (refl, ground arith, (refl, refl)))

pmm_init-IsStarted_example :
    IsStarted tag_words
      (8 ∷ 32 ∷ 48 ∷ [])
      0x150000
      640
      0x10000
      (pmm_init 3 0x150000 (λ _ _. 0) tag_words 0 (state 0 0 (λ _. 0)))
unfolding first_of_type
pmm_init-IsStarted_example =
    pmm_init-IsStarted 3 0x150000 (λ _ _. 0) tag_words 0 (state 0 0 (λ _. 0)) 8 32 (48 ∷ [])
      tag_words-IsChain (omega arith) (λ p i. omega arith) refl (omega arith) (omega arith)
      ((λ e. omega arith), ((λ e. omega arith), tt)) (omega arith)

-- A kernel that ends 16 MiB behind the start of physical memory.
set_up-no_panic_run : set_up 0x1000000 (λ _ _. 0) tag_words (state 0 0 (λ _. 0)) 0x180000 32 ≢ panic
set_up-no_panic_run =
    set_up-no_panic (λ _ _. 0) tag_words (state 0 0 (λ _. 0)) 0x1000000 0x180000 32 (omega arith)
      (omega arith)
