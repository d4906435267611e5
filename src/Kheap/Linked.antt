-- ===== src/Kheap/Linked.antt =====
-- The free list: what it is in memory, and that `add_node` and `remove_node` keep it one.
use piggy_os.Base.{
  ℕ, ◌+◌, ◌≤◌, ◌≡◌, ◌≢◌, ◌⊎◌, inl, inr, refl, sym, ◌∙◌, List, [], ◌∷◌, arith, ◌==◌, if◌then◌else◌,
  update, update_ne, update_self, subst, if_false, ne→==,
}
use piggy_os.Kheap.{Heap, add_node}

-- Two headers share no byte.
abbrev pub Apart : ℕ → ℕ → Type 0
Apart p q = (p + 12 ≤ q) ⊎ (q + 12 ≤ p)

abbrev pub ApartAll : ℕ → List ℕ → Type 0
ApartAll p [] = Unit
ApartAll p (q ∷ qs) = Apart p q × ApartAll p qs

-- The blocks `ps` from `head` on, linked both ways; the `prev` of the first one is `before`.
abbrev pub FreeList : (ℕ → ℕ) → (before head : ℕ) → List ℕ → Type 0
FreeList w before head [] = head ≡ 0
FreeList w before head (p ∷ ps) =
    (head ≡ p) × (p ≢ 0) × (w (p + 4) ≡ before) × ApartAll p ps × FreeList w p (w (p + 8)) ps

-- The address `a` holds no link of the blocks.
abbrev pub Outside : ℕ → List ℕ → Type 0
Outside a [] = Unit
Outside a (p ∷ ps) = (a ≢ p + 4) × (a ≢ p + 8) × Outside a ps

pub Outside-of : (p a : ℕ) (ps : List ℕ) → (a ≡ p + 4) ⊎ (a ≡ p + 8) → ApartAll p ps → Outside a ps
Outside-of p a [] at k = tt
Outside-of p a (q ∷ qs) at k = (ground (arith, k.0), ground (arith, k.0), Outside-of p a qs at k.1)

pub FreeList-update :
    (w : ℕ → ℕ) (before head a v : ℕ) (ps : List ℕ)
    → Outside a ps
    → FreeList w before head ps
    → FreeList (update w a v) before head ps
FreeList-update w before head a v [] o k = k
FreeList-update w before head a v (p ∷ ps) o k =
    let same : w (p + 8) ≡ update w a v (p + 8) = sym (update_ne w a v o.1) in
    (
      k.0,
      k.1,
      update_ne w a v o.0 ∙ k.2,
      k.3,
      subst (λ t. FreeList (update w a v) p t ps) same
          (FreeList-update w p (w (p + 8)) a v ps o.2 k.4),
    )

-- The `prev` of the block at `head`, if there is one, becomes `v`.
abbrev pub relink : (ℕ → ℕ) → (head v : ℕ) → ℕ → ℕ
relink w head v = if head == 0 then w else update w (head + 4) v

pub FreeList-relink :
    (w : ℕ → ℕ) (before head v : ℕ) (ps : List ℕ)
    → FreeList w before head ps
    → FreeList (relink w head v) v head ps
FreeList-relink w before head v [] k = k
FreeList-relink w before head v (p ∷ ps) k =
    let w' = update w (p + 4) v in
    let rest =
      FreeList-update w p (w (p + 8)) (p + 4) v ps (Outside-of p (p + 4) ps (inl refl) k.3) k.4 in
    subst (λ t. FreeList (relink w t v) v t (p ∷ ps)) (sym k.0)
      (subst (λ f. FreeList f v p (p ∷ ps)) (sym (if_false (p == 0) w w' (ne→== p 0 k.1)))
        (
          refl,
          k.1,
          update_self w (p + 4) v,
          k.3,
          subst (λ t. FreeList w' p t ps) (sym (update_ne w (p + 4) v (omega arith))) rest,
        ))

-- The heap's free list is `ps`.
abbrev pub Frees : Heap → List ℕ → Type 0
Frees h ps = FreeList h.words 0 h.freelist ps

pub Outside-self :
    (p a : ℕ) (q : ℕ) → Apart p q → (a ≡ p + 4) ⊎ (a ≡ p + 8) → (a ≢ q + 4) × (a ≢ q + 8)
Outside-self p a q k at = (ground (arith, k), ground (arith, k))

-- A block in front of the list.
FreeList-cons :
    (w : ℕ → ℕ) (head x : ℕ) (ps : List ℕ)
    → x ≢ 0
    → ApartAll x ps
    → FreeList w 0 head ps
    → FreeList (update (relink (update w (x + 8) head) head x) (x + 4) 0) 0 x (x ∷ ps)
FreeList-cons w head x ps ne apart k =
    let w1 = update w (x + 8) head in
    let w2 = relink w1 head x in
    let w3 = update w2 (x + 4) 0 in
    let one =
      FreeList-update w 0 head (x + 8) head ps (Outside-of x (x + 8) ps (inr refl) apart) k in
    let two = FreeList-relink w1 0 head x ps one in
    let three =
      FreeList-update w2 x head (x + 4) 0 ps (Outside-of x (x + 4) ps (inl refl) apart) two in
    let link : w3 (x + 8) ≡ head = linked ps apart k in
    (refl, ne, update_self w2 (x + 4) 0, apart, subst (λ t. FreeList w3 x t ps) (sym link) three)
  where
    linked :
        (qs : List ℕ)
        → ApartAll x qs
        → FreeList w 0 head qs
        → update (relink (update w (x + 8) head) head x) (x + 4) 0 (x + 8) ≡ head
    linked [] a e = ground arith
    linked (q ∷ qs) a e = ground (arith, a.0, e.0)

added : (x : ℕ) (h : Heap) → Heap
added x h = record h {
  freelist = x;
  words = update (relink (update h.words (x + 8) h.freelist) h.freelist x) (x + 4) 0;
}

-- `add_node` puts a block in front of the free list.
pub add_node-Frees :
    (x : ℕ) (h : Heap) (ps : List ℕ)
    → x ≢ 0
    → ApartAll x ps
    → Frees h ps
    → Frees (add_node x h) (x ∷ ps)
unfolding add_node added
add_node-Frees x h ps ne apart k =
    subst (λ s. Frees s (x ∷ ps)) (sym (if_false (x == 0) h (added x h) (ne→== x 0 ne)))
      (FreeList-cons h.words h.freelist x ps ne apart k)
