-- ===== src/Kheap/Free.antt =====
-- `free` of kernel/memory/kheap.c.
use piggy_os.Base.{ℕ, ◌*◌, true, ◌&&◌, ◌==◌, if◌then◌else◌, add32, sub32}
use piggy_os.Kheap.{
  Heap, header, overhead, get_real_size, set_free, is_free, remove_node, add_node, get_prev_block,
  get_next_block, mark,
}

-- `(struct Block*) ptr - sizeof(struct Block)`: twelve headers before `ptr`.
abbrev pub block_of : ℕ → ℕ
block_of ptr = sub32 ptr (header * header)

abbrev pub retail : (old new : ℕ) → Heap → Heap
retail old new h = record h { tail = if h.tail == old then new else h.tail }

unfoldable pub free : (ptr : ℕ) → Heap → Heap
free ptr h =
    let curr = block_of ptr in
    let before = get_prev_block curr h in
    let behind = get_next_block curr h in
    let size = λ (n : ℕ). get_real_size (h.words n) in
    let all =
      set_free true
        (add32 (add32 (add32 (size before) (2 * overhead)) (size curr)) (size behind)) in
    let left = set_free true (add32 (add32 (size before) overhead) (size curr)) in
    let right = set_free true (add32 (add32 (size curr) overhead) (size behind)) in
    if is_free before h && is_free behind h
    then remove_node behind (retail behind before (mark before all h))
    else if is_free before h
    then retail curr before (mark before left h)
    else if is_free behind h
    then add_node curr (remove_node behind (retail behind curr (mark curr right h)))
    else add_node curr (mark curr (set_free true (h.words curr)) h)
