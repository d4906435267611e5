-- ===== src/Kheap/Malloc.antt =====
-- `malloc` of kernel/memory/kheap.c.
use piggy_os.Base.{
  ℕ, ◌+◌, ◌-◌, ◌*◌, ◌%◌, ◌^◌, Bool, true, false, not, ◌&&◌, Option, some, ◌==◌, ltb, if◌then◌else◌,
  add32, sub32, then_with,
}
use piggy_os.Kheap.{
  Heap, header, overhead, set_word, get_real_size, set_free, is_free, remove_node, add_node,
  bestfit, get_next_block, mark, round_up,
}

-- What is left of a block from `ptr` on, `rest` bytes by the code's count, becomes a free block; a
-- free block behind joins it.
unfoldable pub split_off : (base ptr rest next_block : ℕ) → Heap → Heap
split_off base ptr rest next_block h =
    let removed = remove_node next_block h in
    let joined_size =
      set_free true
        (add32 (add32 (sub32 rest overhead) (get_real_size (removed.words next_block))) overhead) in
    let joined = mark ptr joined_size removed in
    let alone = mark ptr (set_free true (sub32 rest overhead)) h in
    if not (base == h.tail) && is_free next_block h
    then add_node ptr
        (record joined { tail = if next_block == joined.tail then ptr else joined.tail })
    else add_node ptr (record alone { tail = if base == alone.tail then ptr else alone.tail })

-- The block at `best` with `which` bytes by the code's count, and what is split off, if anything.
-- The trailing size of a block of `which` stands 4 words before its end, and what is split off
-- begins one word behind it.
unfoldable pub take_block :
    (best which : ℕ) → (small : Bool) → (rest save_next : ℕ) → Heap → ℕ × Heap
take_block best which small rest save_next h =
    let size = set_free false (sub32 which overhead) in
    let trailing = best + 4 * which - 4 * 4 in
    let sized = set_word trailing size (set_word best size h) in
    let divided = if small then sized else split_off best (trailing + 4) rest save_next sized in
    (best + 4 * header, remove_node best divided)

-- The branch on a block that fits.
unfoldable pub reuse : (best block_size : ℕ) → Heap → ℕ × Heap
reuse best block_size h =
    let chunk = add32 (get_real_size (h.words best)) overhead in
    let rest = sub32 chunk block_size in
    let small = ltb rest (8 + overhead) in
    take_block best (if small then chunk else block_size) small rest (get_next_block best h) h

-- The branch on a new block, at the address that `ksbrk` answered.
unfoldable pub append_block : (ret block_size : ℕ) → Heap → ℕ × Heap
append_block ret block_size h =
    let size = set_free false (sub32 block_size overhead) in
    let ended = record h { head = if h.head == 0 then ret else h.head; tail = ret } in
    (ret + 4 * header, set_word (ret + 4 * block_size - 4 * 4) size (set_word ret size ended))

-- An address and the state, or none where a loop runs out of rounds.
abbrev pub Answer : Type 0
Answer = Option (ℕ × Heap)

module _ (ksbrk : ℕ → Heap → Answer) where
  unfoldable pub malloc : (fuel size : ℕ) → Heap → Answer
  malloc fuel size h =
      let block_size = add32 (round_up size) overhead in
      if size == 0
      then some (0, h)
      else then_with (bestfit fuel (round_up size) h) λ best.
        if best == 0
        then then_with (ksbrk block_size h) (λ (ret, h'). some (append_block ret block_size h'))
        else some (reuse best block_size h)

  -- `memset` of a number of bytes to 0; the product has 32 bits.
  unfoldable pub kcalloc :
      (memset : (p c n : ℕ) → (ℕ → ℕ) → ℕ → ℕ) → (fuel num size : ℕ) → Heap → Answer
  kcalloc memset fuel num size h =
      let bytes = num * size % 2 ^ 32 in
      then_with (malloc fuel bytes h)
        λ (ptr, h'). some (ptr, record h' { words = memset ptr 0 bytes h'.words })
