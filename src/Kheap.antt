-- ===== src/Kheap.antt =====
-- kernel/memory/kheap.c: the blocks of the kernel heap and the functions on one block.
-- Memory is read and written by words of 32 bits: `words p` is the word at address `p`, and all
-- addresses that the file forms differ by multiples of 4. A block's header has its size, with the
-- lowest bit set where it is free, and the links of the free list at 4 and 8 behind it. The code adds
-- sizes in bytes to pointers to words, so each counts four times; the model keeps that. A pointer
-- past the last address is undefined in C, so `+` has no wrap-around. 0 is NULL.
pub mod Malloc
pub mod Free
pub mod Realloc
pub mod Early
pub mod Aligned
pub mod Released
pub mod Linked
pub mod Unlinked
pub mod Best
pub mod Fresh
pub mod Reuse
mod Tests
use piggy_os.Base.{
  ℕ, zero, suc, ◌+◌, ◌-◌, ◌*◌, ◌/◌, ◌%◌, ◌^◌, Bool, true, false, not, ◌&&◌, ◌||◌, Option, none,
  some, ◌==◌, ltb, leb, if◌then◌else◌, add32, sub32, update,
}
use piggy_os.Vmm.{Vm}

-- The variables of the file and the memory; those that `ksbrk` shares are in `vm`.
pub record Heap : Type 0 where
  pub head : ℕ
  pub tail : ℕ
  pub freelist : ℕ
  pub placement_address : ℕ
  pub words : ℕ → ℕ
  pub vm : Vm

-- Bytes of a header, and `OVERHEAD`, which adds the size behind the block.
abbrev pub header : ℕ
header = 12

abbrev pub overhead : ℕ
overhead = 16

-- The `prev` and `next` of a block.
abbrev pub prev_of : Heap → ℕ → ℕ
prev_of h n = h.words (n + 4)

abbrev pub next_of : Heap → ℕ → ℕ
next_of h n = h.words (n + 8)

abbrev pub set_word : (p v : ℕ) → Heap → Heap
set_word p v h = record h { words = update h.words p v }

-- `(size >> 1) << 1`
abbrev pub get_real_size : ℕ → ℕ
get_real_size size = size / 2 * 2

-- The size that `setFree` leaves: `| 1`, or `& 0xFFFFFFFE`.
abbrev pub set_free : Bool → ℕ → ℕ
set_free true size = size / 2 * 2 + 1
set_free false size = size / 2 * 2

-- `n->size & 0x1`
abbrev pub is_free : ℕ → Heap → Bool
is_free n h = not (n == 0) && (h.words n % 2 == 1)

abbrev pub does_it_fit : (n size : ℕ) → Heap → Bool
does_it_fit n size h = leb (get_real_size size) (h.words n) && is_free n h

-- Writes to the links only; without a block before it, the list begins behind `x`.
unfoldable pub remove_node : ℕ → Heap → Heap
remove_node x h =
    let w = h.words in
    let joined = update w (prev_of h x + 8) (next_of h x) in
    let back = update joined (joined (x + 8) + 4) (joined (x + 4)) in
    if x == 0
    then h
    else if prev_of h x == 0
    then record h {
      freelist = next_of h x;
      words = if next_of h x == 0 then w else update w (next_of h x + 4) 0;
    }
    else record h { words = if joined (x + 8) == 0 then joined else back }

unfoldable pub add_node : ℕ → Heap → Heap
add_node x h =
    let linked = update h.words (x + 8) h.freelist in
    let back = if h.freelist == 0 then linked else update linked (h.freelist + 4) x in
    if x == 0 then h else record h { freelist = x; words = update back (x + 4) 0 }

-- The loop of `bestfit` on `fuel` rounds; `none` where they run out.
pub best_loop : ℕ → (curr best size : ℕ) → Heap → Option ℕ
best_loop zero curr best size h = none
best_loop (suc fuel) curr best size h =
    let better = does_it_fit curr size h && (best == 0 || ltb (h.words curr) (h.words best)) in
    let rest = best_loop fuel (next_of h curr) (if better then curr else best) size h in
    if curr == 0 then some best else rest

unfoldable pub bestfit : ℕ → (size : ℕ) → Heap → Option ℕ
bestfit fuel size h = if h.freelist == 0 then some 0 else best_loop fuel h.freelist 0 size h

unfoldable pub get_prev_block : ℕ → Heap → ℕ
get_prev_block n h =
    let prev_size = get_real_size (h.words (sub32 n (4 * 4))) in
    if n == h.head then 0 else sub32 (sub32 n (4 * overhead)) (4 * prev_size)

unfoldable pub get_next_block : ℕ → Heap → ℕ
get_next_block n h = if n == h.tail then 0 else n + 4 * overhead + 4 * get_real_size (h.words n)

-- A size is written to the header of `n`, and to where the code looks for it behind the block.
unfoldable pub mark : (n size : ℕ) → Heap → Heap
mark n size h = set_word (n + 4 * header + 4 * get_real_size size) size (set_word n size h)

-- A size rounded up to a multiple of 16: `((size + 15) / 16) * 16`.
abbrev pub round_up : ℕ → ℕ
round_up size = add32 size 15 / 16 * 16
