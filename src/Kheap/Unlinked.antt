-- ===== src/Kheap/Unlinked.antt =====
-- `remove_node` keeps the free list one.
use piggy_os.Base.{
  ℕ, ◌+◌, ◌≡◌, ◌≢◌, ◌⊎◌, inl, inr, refl, sym, ap, ◌∙◌, List, [], ◌∷◌, ◌++◌, arith, ◌==◌, update,
  update_ne, subst, if_true, if_false, ne→==,
}
use piggy_os.Kheap.{Heap, prev_of, next_of, remove_node}
use piggy_os.Kheap.Linked.{
  Apart, ApartAll, FreeList, Frees, Outside-of, Outside-self, FreeList-update, relink,
  FreeList-relink,
}

ApartAll-append :
    (p x : ℕ) (ps qs : List ℕ) → ApartAll p (ps ++ (x ∷ qs)) → Apart p x × ApartAll p (ps ++ qs)
ApartAll-append p x [] qs k = k
ApartAll-append p x (q ∷ ps) qs k =
    let rest = ApartAll-append p x ps qs k.1 in (rest.0, (k.0, rest.1))

-- The `prev` of `x` is the block before it, which stands apart from what all blocks before stand
-- apart from.
prev-Apart :
    (w : ℕ → ℕ) (p before head x : ℕ) (ps qs : List ℕ)
    → Apart p before
    → ApartAll p (ps ++ (x ∷ qs))
    → FreeList w before head (ps ++ (x ∷ qs))
    → Apart p (w (x + 4))
prev-Apart w p before head x [] qs b a k = subst (Apart p) (sym k.2) b
prev-Apart w p before head x (q ∷ ps) qs b a k = prev-Apart w p q (w (q + 8)) x ps qs a.0 a.1 k.4

-- The same of its `next`, if there is one.
next-Apart :
    (w : ℕ → ℕ) (p before head x : ℕ) (ps qs : List ℕ)
    → ApartAll p (ps ++ (x ∷ qs))
    → FreeList w before head (ps ++ (x ∷ qs))
    → (w (x + 8) ≡ 0) ⊎ Apart p (w (x + 8))
next-Apart w p before head x [] [] a k = inl k.4
next-Apart w p before head x [] (q ∷ qs) a k = inr (subst (Apart p) (sym k.4.0) a.1.0)
next-Apart w p before head x (q ∷ ps) qs a k = next-Apart w p q (w (q + 8)) x ps qs a.1 k.4

-- The words after `x` was taken out behind another block.
abbrev unlinked : (ℕ → ℕ) → ℕ → ℕ → ℕ
unlinked w x = relink (update w (w (x + 4) + 8) (w (x + 8))) (w (x + 8)) (w (x + 4))

-- Links of a block apart from both neighbours stay.
unlinked-same :
    (w : ℕ → ℕ) (p x a : ℕ)
    → Apart p (w (x + 4))
    → (w (x + 8) ≡ 0) ⊎ Apart p (w (x + 8))
    → (a ≡ p + 4) ⊎ (a ≡ p + 8)
    → unlinked w x a ≡ w a
unlinked-same w p x a b (inl z) at = ground (arith, b, at)
unlinked-same w p x a b (inr n) at = ground (arith, b, n, at)

-- The links of the block before `x` itself.
unlinked-next :
    (w : ℕ → ℕ) (p x : ℕ)
    → w (x + 4) ≡ p
    → (w (x + 8) ≡ 0) ⊎ Apart p (w (x + 8))
    → unlinked w x (p + 8) ≡ w (x + 8)
unlinked-next w p x b (inl z) = ground (arith, b, z)
unlinked-next w p x b (inr n) = ground (arith, b, n)

unlinked-prev :
    (w : ℕ → ℕ) (p x : ℕ)
    → w (x + 4) ≡ p
    → (w (x + 8) ≡ 0) ⊎ Apart p (w (x + 8))
    → unlinked w x (p + 4) ≡ w (p + 4)
unlinked-prev w p x b (inl z) = ground (arith, b, z)
unlinked-prev w p x b (inr n) = ground (arith, b, n)

unlinked-FreeList :
    (w : ℕ → ℕ) (before head x p : ℕ) (ps qs : List ℕ)
    → FreeList w before head (p ∷ (ps ++ (x ∷ qs)))
    → FreeList (unlinked w x) before head (p ∷ (ps ++ qs))
unlinked-FreeList w before head x p [] qs k =
    let n = next-Apart w p p (w (p + 8)) x [] qs k.3 k.4 in
    let next_x = w (x + 8) in
    let back : w (x + 4) ≡ p = k.4.2 in
    let w1 = update w (w (x + 4) + 8) next_x in
    let out = Outside-of p (w (x + 4) + 8) qs (inr (omega arith)) k.3.1 in
    let two =
      FreeList-relink w1 x next_x (w (x + 4)) qs
        (FreeList-update w x next_x (w (x + 4) + 8) next_x qs out k.4.4) in
    let three = subst (λ t. FreeList (unlinked w x) t next_x qs) back two in
    (
      k.0,
      k.1,
      unlinked-prev w p x back n ∙ k.2,
      k.3.1,
      subst (λ t. FreeList (unlinked w x) p t qs) (sym (unlinked-next w p x back n)) three,
    )
unlinked-FreeList w before head x p (q ∷ ps) qs k =
    let rest = unlinked-FreeList w p (w (p + 8)) x q ps qs k.4 in
    let b = prev-Apart w p q (w (q + 8)) x ps qs k.3.0 k.3.1 k.4.4 in
    let n = next-Apart w p p (w (p + 8)) x (q ∷ ps) qs k.3 k.4 in
    (
      k.0,
      k.1,
      unlinked-same w p x (p + 4) b n (inl refl) ∙ k.2,
      (ApartAll-append p x (q ∷ ps) qs k.3).1,
      subst (λ t. FreeList (unlinked w x) p t (q ∷ (ps ++ qs)))
          (sym (unlinked-same w p x (p + 8) b n (inr refl))) rest,
    )

-- The block before `x`, in a list where there is one.
prev_real :
    (w : ℕ → ℕ) (before head x p : ℕ) (ps qs : List ℕ)
    → FreeList w before head (p ∷ (ps ++ (x ∷ qs)))
    → (w (x + 4) ≢ 0) × Apart x (w (x + 4)) × (x ≢ 0)
prev_real w before head x p [] qs k =
    let back : w (x + 4) ≡ p = k.4.2 in
    (ground (arith, back, k.1), ground (arith, back, k.3.0), k.4.1)
prev_real w before head x p (q ∷ ps) qs k = prev_real w p (w (p + 8)) x q ps qs k.4

flip : (p q : ℕ) → Apart p q → Apart q p
flip p q (inl a) = inr a
flip p q (inr a) = inl a

-- What `remove_node` does to a block with one before it.
remove_node-unlinked :
    (x : ℕ) (h : Heap)
    → (prev_of h x ≢ 0) × Apart x (prev_of h x) × (x ≢ 0)
    → remove_node x h ≡ record h { words = unlinked h.words x }
unfolding remove_node
remove_node-unlinked x h k =
    let w = h.words in
    let w1 = update w (prev_of h x + 8) (next_of h x) in
    let with_words = λ (words : ℕ → ℕ). record h { words = words } in
    let apart =
      Outside-self (prev_of h x) (prev_of h x + 8) x (flip x (prev_of h x) k.1) (inr refl) in
    let at_next : w1 (x + 8) ≡ next_of h x = update_ne w (prev_of h x + 8) (next_of h x) apart.1 in
    let at_prev : w1 (x + 4) ≡ prev_of h x = update_ne w (prev_of h x + 8) (next_of h x) apart.0 in
    if_false (x == 0) h _ (ne→== x 0 k.2)
    ∙ if_false (prev_of h x == 0) _ _ (ne→== (prev_of h x) 0 k.0)
    ∙ ap (λ n. with_words (relink w1 n (w1 (x + 4)))) at_next
    ∙ ap (λ v. with_words (relink w1 (next_of h x) v)) at_prev

remove_node-first :
    (x : ℕ) (h : Heap)
    → x ≢ 0
    → prev_of h x ≡ 0
    → remove_node x h ≡ record h { freelist = next_of h x; words = relink h.words (next_of h x) 0 }
unfolding remove_node
remove_node-first x h ne e =
    let first = record h { freelist = next_of h x; words = relink h.words (next_of h x) 0 } in
    if_false (x == 0) h _ (ne→== x 0 ne) ∙ if_true (prev_of h x == 0) first _ (rw e)

-- `remove_node` takes a block out of the free list, wherever it stands; the others stay in order.
pub remove_node-Frees :
    (x : ℕ) (h : Heap) (ps qs : List ℕ)
    → Frees h (ps ++ (x ∷ qs))
    → Frees (remove_node x h) (ps ++ qs)
remove_node-Frees x h [] qs k =
    subst (λ s. Frees s qs) (sym (remove_node-first x h k.1 k.2))
      (FreeList-relink h.words x (next_of h x) 0 qs k.4)
remove_node-Frees x h (p ∷ ps) qs k =
    subst (λ s. Frees s (p ∷ (ps ++ qs)))
      (sym (remove_node-unlinked x h (prev_real h.words 0 h.freelist x p ps qs k)))
      (unlinked-FreeList h.words 0 h.freelist x p ps qs k)
