-- ===== src/Kheap/Reuse.antt =====
-- `malloc` where a block of the free list fits and too little is left of it for another one.
use piggy_os.Base.{
  ℕ, ◌+◌, ◌-◌, ◌*◌, ◌^◌, ◌≤◌, ◌<◌, ◌≡◌, ◌≢◌, ap, ◌∙◌, List, [], ◌∷◌, ◌++◌, arith, true, false, some,
  ltb, if◌then◌else◌, ne→==, lt→ltb, add32, sub32,
}
use piggy_os.Kheap.{
  Heap, overhead, set_word, set_free, get_real_size, round_up, bestfit, remove_node, get_next_block,
}
use piggy_os.Kheap.Malloc.{Answer, malloc, reuse, take_block}
use piggy_os.Kheap.Linked.{Apart, ApartAll, FreeList, Frees, Outside, FreeList-update}
use piggy_os.Kheap.Unlinked.{remove_node-Frees}

-- The size of a block of the list is none of the links.
Outside-head : (p b : ℕ) (qs : List ℕ) → ApartAll b qs → Outside b qs
Outside-head p b [] a = tt
Outside-head p b (q ∷ qs) a = (ground (arith, a.0), ground (arith, a.0), Outside-head p b qs a.1)

Apart-later : (p b : ℕ) (ps qs : List ℕ) → ApartAll p (ps ++ (b ∷ qs)) → Apart p b
Apart-later p b [] qs a = a.0
Apart-later p b (q ∷ ps) qs a = Apart-later p b ps qs a.1

Outside-size :
    (w : ℕ → ℕ) (before head b : ℕ) (ps qs : List ℕ)
    → FreeList w before head (ps ++ (b ∷ qs))
    → Outside b (ps ++ (b ∷ qs))
Outside-size w before head b [] qs k = (omega arith, omega arith, Outside-head b b qs k.3)
Outside-size w before head b (p ∷ ps) qs k =
    let apart = Apart-later p b ps qs k.3 in
    (ground (arith, apart), ground (arith, apart), Outside-size w p (w (p + 8)) b ps qs k.4)

block_real :
    (w : ℕ → ℕ) (before head b : ℕ) (ps qs : List ℕ)
    → FreeList w before head (ps ++ (b ∷ qs))
    → b ≢ 0
block_real w before head b [] qs k = k.1
block_real w before head b (p ∷ ps) qs k = block_real w p (w (p + 8)) b ps qs k.4

-- The size of the block at `b`, and where the code writes it behind the block.
abbrev pub real : Heap → ℕ → ℕ
real h b = get_real_size (h.words b)

abbrev pub trailing : Heap → ℕ → ℕ
trailing h b = b + 4 * (real h b + 16) - 16

-- The block taken whole.
abbrev whole : (b : ℕ) → Heap → Heap
whole b h = set_word (trailing h b) (real h b) (set_word b (real h b) h)

take_block-whole :
    (b rest save_next : ℕ) (h : Heap)
    → real h b + 16 < 2 ^ 32
    → take_block b (real h b + 16) true rest save_next h ≡ (b + 48, remove_node b (whole b h))
unfolding take_block
take_block-whole b rest save_next h top =
    let size : set_free false (sub32 (real h b + 16) overhead) ≡ real h b = omega arith in
    ap (λ v. (b + 48, remove_node b (set_word (trailing h b) v (set_word b v h)))) size

reuse-whole :
    (b n : ℕ) (h : Heap)
    → round_up n ≤ real h b
    → real h b < round_up n + 24
    → real h b + 16 < 2 ^ 32
    → reuse b (add32 (round_up n) overhead) h ≡ (b + 48, remove_node b (whole b h))
unfolding reuse
reuse-whole b n h fits small top =
    let chunk : add32 (real h b) overhead ≡ real h b + 16 = omega arith in
    let rest = sub32 (add32 (real h b) overhead) (add32 (round_up n) overhead) in
    let test : ltb rest 24 ≡ true = lt→ltb rest 24 (omega arith) in
    let next_block = get_next_block b h in
    ap
      (λ t.
        take_block b (if t then add32 (real h b) overhead else add32 (round_up n) overhead) t rest
          next_block h)
      test
    ∙ ap (λ c. take_block b c true rest next_block h) chunk
    ∙ take_block-whole b rest next_block h top

-- `malloc` of `n` bytes, of which the best block has fewer than 24 more, answers 48 behind that
-- block and takes it out of the free list, the others staying in order, where the word behind the
-- block is no link of the list.
pub malloc-reused :
    (ksbrk : ℕ → Heap → Answer) (fuel n b : ℕ) (h : Heap) (ps qs : List ℕ)
    → n ≢ 0
    → bestfit fuel (round_up n) h ≡ some b
    → Frees h (ps ++ (b ∷ qs))
    → round_up n ≤ real h b
    → real h b < round_up n + 24
    → real h b + 16 < 2 ^ 32
    → Outside (trailing h b) (ps ++ (b ∷ qs))
    → (s : Heap) × (malloc ksbrk fuel n h ≡ some (b + 48, s)) × Frees s (ps ++ qs)
unfolding malloc
malloc-reused ksbrk fuel n b h ps qs ne best k fits small top out =
    let list = ps ++ (b ∷ qs) in
    let sized = set_word b (real h b) h in
    let one =
      FreeList-update h.words 0 h.freelist b (real h b) list
        (Outside-size h.words 0 h.freelist b ps qs k) k in
    let two = FreeList-update sized.words 0 h.freelist (trailing h b) (real h b) list out one in
    (
      remove_node b (whole b h),
      rw (ne→== n 0 ne, best, ne→== b 0 (block_real h.words 0 h.freelist b ps qs k))
          (ap some (reuse-whole b n h fits small top)),
      remove_node-Frees b (whole b h) ps qs two,
    )
