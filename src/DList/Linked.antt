-- ===== src/DList/Linked.antt =====
-- What a doubly linked list of list.c is: the addresses of its nodes, from head to tail.
use piggy_os.Base.{
  ℕ, ◌^◌, ◌<◌, ◌≡◌, ◌≢◌, refl, sym, ap, ◌∙◌, List, [], ◌∷◌, ◌++◌, map, arith, update, update_ne,
  length, subst,
}
use piggy_os.DList.{Node, DList, Memory, set_prev, set_next, set_value}

-- The address `p` is not among `ps`.
abbrev pub Absent : ℕ → List ℕ → Type 0
Absent p [] = Unit
Absent p (q ∷ qs) = (p ≢ q) × Absent p qs

-- The nodes `ps`, at least one, from `head` to `tail`, no address twice; the `prev` of the first one
-- is `before`.
abbrev pub Linked : (ℕ → Node) → (before head tail : ℕ) → List ℕ → Type 0
Linked n before head tail [] = ⊥
Linked n before head tail (p ∷ []) =
    (head ≡ p) × (p ≢ 0) × ((n p).prev ≡ before) × ((n p).next ≡ 0) × (tail ≡ p)
Linked n before head tail (p ∷ q ∷ ps) =
    (head ≡ p)
    × (p ≢ 0)
    × ((n p).prev ≡ before)
    × Absent p (q ∷ ps)
    × Linked n p (n p).next tail (q ∷ ps)

-- An empty list has a NULL head; its tail may be anything.
abbrev pub Shape : (ℕ → Node) → DList → List ℕ → Type 0
Shape n l [] = l.head ≡ 0
Shape n l (p ∷ ps) = Linked n 0 l.head l.tail (p ∷ ps)

pub record IsList (m : Memory) (l : DList) (ps : List ℕ) : Type 0 where
  pub shape : Shape m.nodes l ps
  pub count : l.size ≡ length ps
  pub few : length ps < 2 ^ 32

-- A node that is not in the list may change.
pub Linked-update :
    (n : ℕ → Node) (before head tail x : ℕ) (v : Node) (ps : List ℕ)
    → Absent x ps
    → Linked n before head tail ps
    → Linked (update n x v) before head tail ps
Linked-update n before head tail x v [] a k = k
Linked-update n before head tail x v (p ∷ []) a k = ground arith
Linked-update n before head tail x v (p ∷ q ∷ ps) a k =
    let rest = Linked-update n p (n p).next tail x v (q ∷ ps) a.1 k.4 in
    let same : update n x v p ≡ n p = update_ne n x v a.0 in
    (
      k.0,
      k.1,
      ap (λ (w : Node). w.prev) same ∙ k.2,
      k.3,
      subst (λ (w : Node). Linked (update n x v) p w.next tail (q ∷ ps)) (sym same) rest,
    )

pub tail_inside :
    (n : ℕ → Node) (before head tail x : ℕ) (ps : List ℕ)
    → Absent x ps
    → Linked n before head tail ps
    → x ≢ tail
tail_inside n before head tail x [] a k = absurd k
tail_inside n before head tail x (p ∷ []) a k = ground arith
tail_inside n before head tail x (p ∷ q ∷ ps) a k =
    tail_inside n p (n p).next tail x (q ∷ ps) a.1 k.4

set_prev-next : (n : ℕ → Node) (p v : ℕ) → (set_prev p v n p).next ≡ (n p).next
set_prev-next n p v = ground arith

-- The first node takes a new `prev`.
pub Linked-set_prev :
    (n : ℕ → Node) (before head tail v p : ℕ) (ps : List ℕ)
    → Linked n before head tail (p ∷ ps)
    → Linked (set_prev head v n) v head tail (p ∷ ps)
Linked-set_prev n before head tail v p [] k = ground arith
Linked-set_prev n before head tail v p (q ∷ ps) k =
    let at : head ≡ p = k.0 in
    let rest = Linked-update n p (n p).next tail p (record (n p) { prev = v }) (q ∷ ps) k.3 k.4 in
    subst (λ h. Linked (set_prev h v n) v h tail (p ∷ q ∷ ps)) (sym at)
      (
        refl,
        k.1,
        ground arith,
        k.3,
        subst (λ h. Linked (set_prev p v n) p h tail (q ∷ ps)) (sym (set_prev-next n p v)) rest,
      )

pub Absent-append : (p x : ℕ) (ps : List ℕ) → p ≢ x → Absent p ps → Absent p (ps ++ (x ∷ []))
Absent-append p x [] ne a = (ne, a)
Absent-append p x (q ∷ ps) ne a = (a.0, Absent-append p x ps ne a.1)

-- A node behind the last one.
pub Linked-append :
    (n : ℕ → Node) (before head tail x : ℕ) (ps : List ℕ)
    → x ≢ 0
    → Absent x ps
    → (n x).prev ≡ tail
    → (n x).next ≡ 0
    → Linked n before head tail ps
    → Linked (set_next tail x n) before head x (ps ++ (x ∷ []))
Linked-append n before head tail x [] real a back end k = absurd k
Linked-append n before head tail x (p ∷ []) real a back end k = ground arith
Linked-append n before head tail x (p ∷ q ∷ ps) real a back end k =
    let rest = Linked-append n p (n p).next tail x (q ∷ ps) real a.1 back end k.4 in
    let ne : p ≢ x = λ e. a.0 (sym e) in
    let same : set_next tail x n p ≡ n p =
      update_ne n tail (record (n tail) { next = x })
        (λ e. tail_inside n p (n p).next tail p (q ∷ ps) k.3 k.4 (sym e)) in
    (
      k.0,
      k.1,
      ap (λ (w : Node). w.prev) same ∙ k.2,
      Absent-append p x (q ∷ ps) ne k.3,
      subst (λ (w : Node). Linked (set_next tail x n) p w.next x (q ∷ (ps ++ (x ∷ [])))) (sym same)
          rest,
    )

-- The values of a list, from head to tail.
abbrev pub values : (ℕ → Node) → List ℕ → List ℕ
values n ps = map (λ p. (n p).value) ps

pub values-update :
    (n : ℕ → Node) (x : ℕ) (v : Node) (ps : List ℕ)
    → Absent x ps
    → values (update n x v) ps ≡ values n ps
values-update n x v [] a = refl
values-update n x v (p ∷ ps) a = ground (arith, values-update n x v ps a.1)

pub values-same :
    (n n' : ℕ → Node) (ps : List ℕ)
    → ((p : ℕ) → (n' p).value ≡ (n p).value)
    → values n' ps ≡ values n ps
values-same n n' [] h = refl
values-same n n' (p ∷ ps) h = ground (arith, h p, values-same n n' ps h)

pub Linked-head :
    (n : ℕ → Node) (before head tail p : ℕ) (ps : List ℕ)
    → Linked n before head tail (p ∷ ps)
    → (head ≡ p) × (p ≢ 0) × ((n p).prev ≡ before)
Linked-head n before head tail p [] k = (k.0, k.1, k.2)
Linked-head n before head tail p (q ∷ ps) k = (k.0, k.1, k.2)

pub values-set_prev :
    (n : ℕ → Node) (x v : ℕ) (ps : List ℕ) → values (set_prev x v n) ps ≡ values n ps
values-set_prev n x v ps = values-same n (set_prev x v n) ps λ p. ground arith

pub values-set_next :
    (n : ℕ → Node) (x v : ℕ) (ps : List ℕ) → values (set_next x v n) ps ≡ values n ps
values-set_next n x v ps = values-same n (set_next x v n) ps λ p. ground arith

-- The values of the nodes do not matter.
pub Linked-set_value :
    (n : ℕ → Node) (before head tail x v : ℕ) (ps : List ℕ)
    → Linked n before head tail ps
    → Linked (set_value x v n) before head tail ps
Linked-set_value n before head tail x v [] k = k
Linked-set_value n before head tail x v (p ∷ []) k = ground arith
Linked-set_value n before head tail x v (p ∷ q ∷ ps) k =
    let rest = Linked-set_value n p (n p).next tail x v (q ∷ ps) k.4 in
    let same : (set_value x v n p).next ≡ (n p).next = ground arith in
    (
      k.0,
      k.1,
      ground arith,
      k.3,
      subst (λ h. Linked (set_value x v n) p h tail (q ∷ ps)) (sym same) rest,
    )

pub tail_real :
    (n : ℕ → Node) (before head tail : ℕ) (ps : List ℕ) → Linked n before head tail ps → tail ≢ 0
tail_real n before head tail [] k = absurd k
tail_real n before head tail (p ∷ []) k = ground arith
tail_real n before head tail (p ∷ q ∷ ps) k = tail_real n p (n p).next tail (q ∷ ps) k.4

pub Shape-Linked :
    (n : ℕ → Node) (l : DList) (ps : List ℕ) → Linked n 0 l.head l.tail ps → Shape n l ps
Shape-Linked n l [] k = absurd k
Shape-Linked n l (p ∷ ps) k = k
