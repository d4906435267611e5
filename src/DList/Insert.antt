-- ===== src/DList/Insert.antt =====
-- `list_insert_front` and `list_insert_back`.
use piggy_os.Base.{
  ℕ, suc, ◌^◌, ◌<◌, ◌≡◌, ◌≢◌, refl, sym, ap, ◌∙◌, List, [], ◌∷◌, ◌++◌, arith, ◌==◌, if◌then◌else◌,
  update, update_self, length, subst, if_true, if_false, ne→==, ==_refl,
}
use piggy_os.DList.{
  Node, DList, Memory, blank_node, set_prev, set_next, set_value, list_insert_front,
  list_insert_back,
}
use piggy_os.DList.Linked.{
  Absent, Linked, Linked-head, Shape, IsList, Linked-update, Linked-set_prev, Linked-append, values,
  values-update, values-set_prev, values-set_next, Linked-set_value, tail_real, Shape-Linked,
  values-same,
}

-- The nodes when the new node `t` has been linked in before `head`.
abbrev front_nodes : (ℕ → Node) → (head t v : ℕ) → ℕ → Node
front_nodes n head t v = set_value t v (set_next t head (set_prev head t (update n t blank_node)))

front-Linked :
    (n : ℕ → Node) (head tail t v p : ℕ) (ps : List ℕ)
    → t ≢ 0
    → Absent t (p ∷ ps)
    → Linked n 0 head tail (p ∷ ps)
    → Linked (front_nodes n head t v) t head tail (p ∷ ps)
front-Linked n head tail t v p ps real a k =
    let n₁ = update n t blank_node in
    let n₂ = set_prev head t n₁ in
    let n₃ = set_next t head n₂ in
    let one = Linked-update n 0 head tail t blank_node (p ∷ ps) a k in
    let two = Linked-set_prev n₁ 0 head tail t p ps one in
    let three = Linked-update n₂ t head tail t (record (n₂ t) { next = head }) (p ∷ ps) a two in
    Linked-update n₃ t head tail t (record (n₃ t) { value = v }) (p ∷ ps) a three

front_nodes-new :
    (n : ℕ → Node) (head t v : ℕ)
    → head ≢ t
    → let w = front_nodes n head t v t in (w.prev ≡ 0) × (w.next ≡ head) × (w.value ≡ v)
front_nodes-new n head t v ne = ground arith

front-Shape :
    (n : ℕ → Node) (l : DList) (t v : ℕ) (ps : List ℕ)
    → t ≢ 0
    → Absent t ps
    → Shape n l ps
    → Linked (front_nodes n l.head t v) 0 t (if l.head == 0 then t else l.tail) (t ∷ ps)
front-Shape n l t v [] real a k =
    let (prev, next, value) = front_nodes-new n l.head t v (λ e. real (sym e ∙ k)) in
    (refl, real, prev, next ∙ k, if_true (l.head == 0) _ _ (rw k (==_refl 0)))
front-Shape n l t v (p ∷ ps) real a k =
    let (at, some, _) = Linked-head n 0 l.head l.tail p ps k in
    let (prev, next, value) = front_nodes-new n l.head t v (λ e. a.0 (sym e ∙ at)) in
    let end = if_false (l.head == 0) t l.tail (rw at (ne→== p 0 some)) in
    let rest = front-Linked n l.head l.tail t v p ps real a k in
    (refl, real, prev, a, rw next (rw end rest))

front-values :
    (n : ℕ → Node) (head t v : ℕ) (ps : List ℕ)
    → Absent t ps
    → values (front_nodes n head t v) ps ≡ values n ps
front-values n head t v ps a =
    let n₁ = update n t blank_node in
    let n₂ = set_prev head t n₁ in
    let n₃ = set_next t head n₂ in
    values-update n₃ t (record (n₃ t) { value = v }) ps a
    ∙ values-set_next n₂ t head ps
    ∙ values-set_prev n₁ head t ps
    ∙ values-update n t blank_node ps a

-- `list_insert_front` puts a node with the value in front of the others.
pub list_insert_front-IsList :
    (t v : ℕ) (l : DList) (m : Memory) (ps : List ℕ)
    → IsList m l ps
    → t ≢ 0
    → Absent t ps
    → suc (length ps) < 2 ^ 32
    → let (l', m') = list_insert_front t v l m in
      IsList m' l' (t ∷ ps) × (values m'.nodes (t ∷ ps) ≡ v ∷ values m.nodes ps)
unfolding list_insert_front
list_insert_front-IsList t v l m ps k real a room =
    let n = set_next t l.head (set_prev l.head t (update m.nodes t blank_node)) in
    (
      record {
        shape = front-Shape m.nodes l t v ps real a k.shape;
        count = omega (arith, k.count);
        few = room;
      },
      ap (λ (w : Node). w.value ∷ values (set_value t v n) ps)
            (update_self n t (record (n t) { value = v }))
          ∙ ap (λ vs. v ∷ vs) (front-values m.nodes l.head t v ps a),
    )

abbrev back_nodes : (ℕ → Node) → (tail t v : ℕ) → ℕ → Node
back_nodes n tail t v = set_value t v (set_next tail t (set_prev t tail (update n t blank_node)))

back-Linked :
    (n : ℕ → Node) (head tail t v : ℕ) (ps : List ℕ)
    → t ≢ 0
    → Absent t ps
    → Linked n 0 head tail ps
    → Linked (back_nodes n tail t v) 0 head t (ps ++ (t ∷ []))
back-Linked n head tail t v ps real a k =
    let n₁ = update n t blank_node in
    let n₂ = set_prev t tail n₁ in
    let one = Linked-update n 0 head tail t blank_node ps a k in
    let two = Linked-update n₁ 0 head tail t (record (n₁ t) { prev = tail }) ps a one in
    let three = Linked-append n₂ 0 head tail t ps real a back end two in
    Linked-set_value (set_next tail t n₂) 0 head t t v (ps ++ (t ∷ [])) three
  where
    back : (set_prev t tail (update n t blank_node) t).prev ≡ tail
    back = ground arith

    end : (set_prev t tail (update n t blank_node) t).next ≡ 0
    end = ground arith

-- The nodes as `list_insert_back` leaves them, with its test for a tail.
abbrev behind : (ℕ → Node) → DList → (t v : ℕ) → ℕ → Node
behind n l t v =
    let n₂ = set_prev t l.tail (update n t blank_node) in
    set_value t v (if l.tail == 0 then n₂ else set_next l.tail t n₂)

behind-back :
    (n : ℕ → Node) (l : DList) (t v : ℕ) → l.tail ≢ 0 → behind n l t v ≡ back_nodes n l.tail t v
behind-back n l t v ne =
    let n₂ = set_prev t l.tail (update n t blank_node) in
    ap (λ w. set_value t v w) (if_false (l.tail == 0) n₂ (set_next l.tail t n₂) (ne→== l.tail 0 ne))

back-Shape :
    (n : ℕ → Node) (l : DList) (t v : ℕ) (ps : List ℕ)
    → t ≢ 0
    → Absent t ps
    → (l.head ≡ 0 → l.tail ≡ 0)
    → Shape n l ps
    → Linked (behind n l t v) 0 (if l.head == 0 then t else l.head) t (ps ++ (t ∷ []))
back-Shape n l t v [] real a stale k = ground arith
back-Shape n l t v (p ∷ ps) real a stale k =
    let (at, some, _) = Linked-head n 0 l.head l.tail p ps k in
    let start = if_false (l.head == 0) t l.head (rw at (ne→== p 0 some)) in
    let same = behind-back n l t v (tail_real n 0 l.head l.tail (p ∷ ps) k) in
    rw start (
      subst (λ w. Linked w 0 l.head t (p ∷ (ps ++ (t ∷ [])))) (sym same)
        (back-Linked n l.head l.tail t v (p ∷ ps) real a k))

pub length-append : (ps : List ℕ) (t : ℕ) → length (ps ++ (t ∷ [])) ≡ suc (length ps)
length-append [] t = refl
length-append (p ∷ ps) t = ap suc (length-append ps t)

values-append :
    (n : ℕ → Node) (ps : List ℕ) (t : ℕ)
    → values n (ps ++ (t ∷ [])) ≡ values n ps ++ ((n t).value ∷ [])
values-append n [] t = refl
values-append n (p ∷ ps) t = ap (λ vs. (n p).value ∷ vs) (values-append n ps t)

back-values :
    (n : ℕ → Node) (l : DList) (t v : ℕ) (ps : List ℕ)
    → Absent t ps
    → values (behind n l t v) ps ≡ values n ps
back-values n l t v ps a =
    let n₁ = update n t blank_node in
    let n₂ = set_prev t l.tail n₁ in
    let n₃ = if l.tail == 0 then n₂ else set_next l.tail t n₂ in
    values-update n₃ t (record (n₃ t) { value = v }) ps a
    ∙ values-same n₂ n₃ ps (λ p. ground arith)
    ∙ values-set_prev n₁ t l.tail ps
    ∙ values-update n t blank_node ps a

-- `list_insert_back` puts a node with the value behind the others, in a list that is not empty or
-- whose tail is NULL.
pub list_insert_back-IsList :
    (t v : ℕ) (l : DList) (m : Memory) (ps : List ℕ)
    → IsList m l ps
    → t ≢ 0
    → Absent t ps
    → suc (length ps) < 2 ^ 32
    → (l.head ≡ 0 → l.tail ≡ 0)
    → let (l', m') = list_insert_back t v l m in
      IsList m' l' (ps ++ (t ∷ []))
      × (values m'.nodes (ps ++ (t ∷ [])) ≡ values m.nodes ps ++ (v ∷ []))
unfolding list_insert_back
list_insert_back-IsList t v l m ps k real a room stale =
    let (l', m') = list_insert_back t v l m in
    let n₂ = set_prev t l.tail (update m.nodes t blank_node) in
    let n₃ = if l.tail == 0 then n₂ else set_next l.tail t n₂ in
    (
      record {
        shape =
            Shape-Linked m'.nodes l' (ps ++ (t ∷ []))
              (back-Shape m.nodes l t v ps real a stale k.shape);
        count = omega (arith, k.count, length-append ps t);
        few = omega (arith, length-append ps t);
      },
      values-append m'.nodes ps t
          ∙ ap (λ vs. vs ++ ((m'.nodes t).value ∷ [])) (back-values m.nodes l t v ps a)
          ∙ ap (λ (w : Node). values m.nodes ps ++ (w.value ∷ []))
              (update_self n₃ t (record (n₃ t) { value = v })),
    )
