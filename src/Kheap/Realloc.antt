-- ===== src/Kheap/Realloc.antt =====
-- `realloc` of kernel/memory/kheap.c. `memcpy` of a number of bytes is a parameter, on the words of
-- the heap.
use piggy_os.Base.{
  ℕ, ◌+◌, ◌*◌, true, false, not, ◌&&◌, some, ◌==◌, ltb, leb, if◌then◌else◌, add32, sub32, then_with,
}
use piggy_os.Kheap.{
  Heap, header, overhead, get_real_size, set_free, is_free, remove_node, add_node, get_prev_block,
  get_next_block, mark, round_up,
}
use piggy_os.Kheap.Malloc.{Answer, malloc}
use piggy_os.Kheap.Free.{block_of, free, retail}

-- A block grows over the free block behind it.
unfoldable pub grow_behind : (nptr next_block : ℕ) → Heap → Heap
grow_behind nptr next_block h =
    let removed = remove_node next_block h in
    let size =
      add32 (add32 (get_real_size (removed.words nptr)) overhead)
        (get_real_size (removed.words next_block)) in
    retail next_block nptr (mark nptr (set_free false size) removed)

-- The free block before it grows over a block; its contents are still to be moved.
unfoldable pub grow_before : (nptr prev_block : ℕ) → Heap → Heap
grow_before nptr prev_block h =
    let removed = remove_node prev_block h in
    let size =
      add32 (add32 (get_real_size (h.words nptr)) overhead)
        (get_real_size (removed.words prev_block)) in
    retail nptr prev_block (mark prev_block (set_free false size) removed)

-- A block of more than `block_size` is cut, and what is left becomes a free block four headers
-- behind the trailing size.
unfoldable pub shrink : (nptr next_block block_size rest : ℕ) → Heap → Heap
shrink nptr next_block block_size rest h =
    let size = set_free false (sub32 block_size overhead) in
    let cut = mark nptr size h in
    let rest_block = nptr + 4 * header + 4 * get_real_size size + 4 * header in
    let joined =
      mark rest_block (set_free true (add32 rest (get_real_size (cut.words next_block)))) cut in
    let alone = mark rest_block (set_free true (sub32 rest overhead)) cut in
    if is_free next_block cut
    then add_node rest_block (retail next_block rest_block (remove_node next_block joined))
    else add_node rest_block alone

module _ (ksbrk : ℕ → Heap → Answer) (memcpy : (dest src n : ℕ) → (ℕ → ℕ) → ℕ → ℕ) where
  -- To a new block, with the contents.
  unfoldable pub move : (fuel ptr size : ℕ) → Heap → Answer
  move fuel ptr size h = then_with (malloc ksbrk fuel size h) λ (answer, h'). some (
    answer,
    free ptr (record h' {
      words = memcpy answer ptr (get_real_size (h'.words (block_of ptr))) h'.words;
    }),
  )

  unfoldable pub realloc : (fuel ptr size : ℕ) → Heap → Answer
  realloc fuel ptr size h =
      let nptr = block_of ptr in
      let next_block = get_next_block nptr h in
      let prev_block = get_prev_block nptr h in
      let own = get_real_size (h.words nptr) in
      let with_neighbour = λ (n : ℕ). add32 (add32 own overhead) (get_real_size (h.words n)) in
      let block_size = add32 (round_up size) overhead in
      let rest = sub32 (add32 own overhead) block_size in
      let before = grow_before nptr prev_block h in
      if ptr == 0
      then malloc ksbrk fuel size h
      else if size == 0
      then some (0, free ptr h)
      else if h.words nptr == size
      then some (ptr, h)
      else if ltb (h.words nptr) size
      then (if not (h.tail == nptr)
            && (is_free next_block h && leb (round_up size) (with_neighbour next_block))
          then some (nptr + header, grow_behind nptr next_block h)
          else if not (h.head == nptr)
              && (is_free prev_block h && leb (round_up size) (with_neighbour prev_block))
          then some (
            prev_block + header,
            record before { words = memcpy (prev_block + header) ptr own before.words },
          )
          else move fuel ptr size h)
      else if ltb rest (8 + overhead)
      then some (ptr, h)
      else some (ptr, shrink nptr next_block block_size rest h)
