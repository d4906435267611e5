-- ===== src/Kheap/Released.antt =====
-- `free`: the free list afterwards, where the block before is not free.
use piggy_os.Base.{
  ℕ, ◌+◌, ◌*◌, ◌/◌, ◌%◌, ◌^◌, ◌≡◌, ◌≢◌, ◌⊎◌, inl, inr, ap, ◌∙◌, arith, refl, sym, List, [], ◌∷◌,
  ◌++◌, true, false, update, add32, subst,
}
use piggy_os.Kheap.{
  Heap, header, overhead, set_free, get_real_size, is_free, mark, add_node, remove_node,
  get_prev_block, get_next_block,
}
use piggy_os.Kheap.Free.{free, block_of, retail}
use piggy_os.Kheap.Linked.{ApartAll, Frees, Outside, FreeList, FreeList-update, add_node-Frees}
use piggy_os.Kheap.Unlinked.{remove_node-Frees}

-- Where the code writes the size of the block at `c` a second time.
abbrev pub behind : (c size : ℕ) → ℕ
behind c size = c + 4 * header + 4 * get_real_size size

-- Neither write of a size hits a link of the list.
mark-Frees :
    (c size : ℕ) (h : Heap) (ps : List ℕ)
    → Outside c ps
    → Outside (behind c size) ps
    → Frees h ps
    → Frees (mark c size h) ps
unfolding mark
mark-Frees c size h ps o o' k =
    FreeList-update (update h.words c size) 0 h.freelist (behind c size) size ps o'
      (FreeList-update h.words 0 h.freelist c size ps o k)

free-alone :
    (ptr : ℕ) (h : Heap)
    → is_free (get_prev_block (block_of ptr) h) h ≡ false
    → is_free (get_next_block (block_of ptr) h) h ≡ false
    → free ptr h
      ≡ add_node (block_of ptr) (mark (block_of ptr) (set_free true (h.words (block_of ptr))) h)
unfolding free
free-alone ptr h a b = rw (a, b) refl

-- `free` where neither neighbour is free puts the block whose header it reads in front of the free
-- list, if that header shares no byte with those of the list and no size that it writes is a link.
pub free-Frees :
    (ptr : ℕ) (h : Heap) (ps : List ℕ)
    → block_of ptr ≢ 0
    → is_free (get_prev_block (block_of ptr) h) h ≡ false
    → is_free (get_next_block (block_of ptr) h) h ≡ false
    → ApartAll (block_of ptr) ps
    → Outside (block_of ptr) ps
    → Outside (behind (block_of ptr) (set_free true (h.words (block_of ptr)))) ps
    → Frees h ps
    → Frees (free ptr h) (block_of ptr ∷ ps)
free-Frees ptr h ps ne a b apart o o' k =
    let c = block_of ptr in
    let size = set_free true (h.words c) in
    subst (λ s. Frees s (c ∷ ps)) (sym (free-alone ptr h a b))
      (add_node-Frees c (mark c size h) ps ne apart (mark-Frees c size h ps o o' k))

-- The size of a block that swallows the free block behind it.
abbrev pub joined : Heap → (c n : ℕ) → ℕ
joined h c n =
    set_free true (add32 (add32 (get_real_size (h.words c)) overhead) (get_real_size (h.words n)))

free-right :
    (ptr : ℕ) (h : Heap)
    → let c = block_of ptr in
      let n = get_next_block c h in
      is_free (get_prev_block c h) h ≡ false
      → is_free n h ≡ true
      → free ptr h ≡ add_node c (remove_node n (retail n c (mark c (joined h c n) h)))
unfolding free
free-right ptr h a b = rw (a, b) refl

ApartAll-without : (c n : ℕ) (ps qs : List ℕ) → ApartAll c (ps ++ (n ∷ qs)) → ApartAll c (ps ++ qs)
ApartAll-without c n [] qs a = a.1
ApartAll-without c n (p ∷ ps) qs a = (a.0, ApartAll-without c n ps qs a.1)

Outside-without : (a n : ℕ) (ps qs : List ℕ) → Outside a (ps ++ (n ∷ qs)) → Outside a (ps ++ qs)
Outside-without a n [] qs o = o.2
Outside-without a n (p ∷ ps) qs o = (o.0, o.1, Outside-without a n ps qs o.2)

-- Where a block is added or taken out, an address that is no link of the list keeps its word.
add_node-same :
    (x : ℕ) (h : Heap) (ps : List ℕ)
    → Outside x ps
    → Frees h ps
    → (add_node x h).words x ≡ h.words x
unfolding add_node
add_node-same x h [] o k = ground (arith, k)
add_node-same x h (p ∷ ps) o k = ground (arith, k.0, k.1, o.0)

before-Outside :
    (w : ℕ → ℕ) (a before head x : ℕ) (ps qs : List ℕ)
    → (before ≡ 0) ⊎ (a ≢ before + 8)
    → Outside a (ps ++ (x ∷ qs))
    → FreeList w before head (ps ++ (x ∷ qs))
    → (w (x + 4) ≡ 0) ⊎ (a ≢ w (x + 4) + 8)
before-Outside w a before head x [] qs b o k = subst (λ t. (t ≡ 0) ⊎ (a ≢ t + 8)) (sym k.2) b
before-Outside w a before head x (q ∷ ps) qs b o k =
    before-Outside w a q (w (q + 8)) x ps qs (inr o.1) o.2 k.4

behind-Outside :
    (w : ℕ → ℕ) (a before head x : ℕ) (ps qs : List ℕ)
    → Outside a (ps ++ (x ∷ qs))
    → FreeList w before head (ps ++ (x ∷ qs))
    → (w (x + 8) ≡ 0) ⊎ (a ≢ w (x + 8) + 4)
behind-Outside w a before head x [] [] o k = inl k.4
behind-Outside w a before head x [] (q ∷ qs) o k = inr (subst (λ t. a ≢ t + 4) (sym k.4.0) o.2.0)
behind-Outside w a before head x (q ∷ ps) qs o k = behind-Outside w a q (w (q + 8)) x ps qs o.2 k.4

remove_node-same :
    (x a : ℕ) (h : Heap) (ps qs : List ℕ)
    → Outside a (ps ++ (x ∷ qs))
    → Frees h (ps ++ (x ∷ qs))
    → (remove_node x h).words a ≡ h.words a
unfolding remove_node
remove_node-same x a h ps qs o k =
    kept (before-Outside h.words a 0 h.freelist x ps qs (inl refl) o k)
      (behind-Outside h.words a 0 h.freelist x ps qs o k)
  where
    kept :
        (h.words (x + 4) ≡ 0) ⊎ (a ≢ h.words (x + 4) + 8)
        → (h.words (x + 8) ≡ 0) ⊎ (a ≢ h.words (x + 8) + 4)
        → (remove_node x h).words a ≡ h.words a
    kept (inl b) (inl n) = ground (arith, b, n)
    kept (inl b) (inr n) = ground (arith, b, n)
    kept (inr b) (inl n) = ground (arith, b, n)
    kept (inr b) (inr n) = ground (arith, b, n)

mark-size : (c size : ℕ) (h : Heap) → (mark c size h).words c ≡ size
unfolding mark
mark-size c size h = ground arith

-- `free` of the block at `c`, where the block before is not free and the one behind is, takes that
-- one out of the free list, wherever it stands, and puts `c` in front. The size of `c` is then that of
-- both, without their lowest bits, and 16 more, with the lowest bit set. The conditions: the header of
-- `c` shares no byte with those of the list, and neither the address of `c` nor the one where the code
-- writes the size again is that of a link of the list.
pub free-joins :
    (ptr : ℕ) (h : Heap) (ps qs : List ℕ)
    → let c = block_of ptr in
      let n = get_next_block c h in
      c ≢ 0
      → is_free (get_prev_block c h) h ≡ false
      → is_free n h ≡ true
      → ApartAll c (ps ++ (n ∷ qs))
      → Outside c (ps ++ (n ∷ qs))
      → Outside (behind c (joined h c n)) (ps ++ (n ∷ qs))
      → Frees h (ps ++ (n ∷ qs))
      → Frees (free ptr h) (c ∷ (ps ++ qs))
        × ((free ptr h).words c ≡ (h.words c / 2 * 2 + 16 + h.words n / 2 * 2) % 2 ^ 32 / 2 * 2 + 1)
free-joins ptr h ps qs ne a b apart o o' k =
    let c = block_of ptr in
    let n = get_next_block c h in
    let marked = retail n c (mark c (joined h c n) h) in
    let all : Frees marked (ps ++ (n ∷ qs)) =
      mark-Frees c (joined h c n) h (ps ++ (n ∷ qs)) o o' k in
    let less = remove_node-Frees n marked ps qs all in
    let few = Outside-without c n ps qs o in
    (
      subst (λ s. Frees s (c ∷ (ps ++ qs))) (sym (free-right ptr h a b))
          (add_node-Frees c (remove_node n marked) (ps ++ qs) ne (ApartAll-without c n ps qs apart)
            less),
      ap (λ (s : Heap). s.words c) (free-right ptr h a b)
          ∙ add_node-same c (remove_node n marked) (ps ++ qs) few less
          ∙ remove_node-same n c marked ps qs o all
          ∙ mark-size c (joined h c n) h
          ∙ (omega arith),
    )
