-- ===== src/DList/Remove.antt =====
-- `list_remove_front`, `list_remove_back` and `list_remove_node`.
use piggy_os.Base.{
  ℕ, suc, ◌≡◌, ◌≢◌, refl, sym, ap, ◌∙◌, List, [], ◌∷◌, arith, ◌==◌, if◌then◌else◌, update_ne,
  length, subst, if_false, ne→==,
}
use piggy_os.DList.{Node, DList, Memory, set_prev, set_next, list_remove_front, list_remove_back}
use piggy_os.DList.Linked.{
  Absent, Linked, Linked-head, Shape, IsList, Linked-set_prev, values, values-set_prev,
  values-set_next, tail_inside, tail_real,
}

-- The nodes without their first one.
front_removed : (ℕ → Node) → ℕ → ℕ → Node
front_removed n head = if head == 0 then n else set_prev head 0 n

front_removed-Shape :
    (n : ℕ → Node) (l : DList) (p : ℕ) (ps : List ℕ)
    → Linked n 0 l.head l.tail (p ∷ ps)
    → Shape (front_removed n (n p).next) (record l { head = (n p).next }) ps
      × (values (front_removed n (n p).next) ps ≡ values n ps)
unfolding front_removed
front_removed-Shape n l p [] k = (k.3, refl)
front_removed-Shape n l p (q ∷ ps) k =
    let rest = k.4 in
    let (at, some, _) = Linked-head n p (n p).next l.tail q ps rest in
    let test = if_false ((n p).next == 0) n (set_prev (n p).next 0 n) (rw at (ne→== q 0 some)) in
    (
      subst (λ w. Linked w 0 (n p).next l.tail (q ∷ ps)) (sym test)
          (Linked-set_prev n p (n p).next l.tail 0 q ps rest),
      subst (λ w. values w (q ∷ ps) ≡ values n (q ∷ ps)) (sym test)
          (values-set_prev n (n p).next 0 (q ∷ ps)),
    )

-- What is left of a list when the node `p` has been taken out and `ps` remain.
pub record Without (m : Memory) (p : ℕ) (ps : List ℕ) (v : ℕ) (l' : DList) (m' : Memory)
    : Type 0 where
  pub value : v ≡ (m.nodes p).value
  pub list : IsList m' l' ps
  pub same_values : values m'.nodes ps ≡ values m.nodes ps
  pub given_back : m'.freed ≡ p ∷ m.freed

-- `list_remove_front` takes the first node out, answers its value and gives the node back.
pub list_remove_front-Without :
    (l : DList) (m : Memory) (p : ℕ) (ps : List ℕ)
    → IsList m l (p ∷ ps)
    → let (v, l', m') = list_remove_front l m in Without m p ps v l' m'
unfolding list_remove_front front_removed
list_remove_front-Without l m p ps k =
    let (at, some, _) = Linked-head m.nodes 0 l.head l.tail p ps k.shape in
    let (shape, kept) = front_removed-Shape m.nodes l p ps k.shape in
    rw (if_false (l.head == 0) _ _ (rw at (ne→== p 0 some))) (
      rw at (record {
        value = refl;
        list = record {
          shape = shape;
          count = omega (arith, k.count, k.few);
          few = omega (arith, k.few);
        };
        same_values = kept;
        given_back = refl;
      }))

-- All but the last.
abbrev pub init : List ℕ → List ℕ
init [] = []
init (p ∷ []) = []
init (p ∷ q ∷ ps) = p ∷ init (q ∷ ps)

Absent-init : (x : ℕ) (ps : List ℕ) → Absent x ps → Absent x (init ps)
Absent-init x [] a = a
Absent-init x (p ∷ []) a = a.1
Absent-init x (p ∷ q ∷ ps) a = (a.0, Absent-init x (q ∷ ps) a.1)

length-init : (p : ℕ) (ps : List ℕ) → length (init (p ∷ ps)) ≡ length ps
length-init p [] = refl
length-init p (q ∷ ps) = ap suc (length-init q ps)

-- The nodes without the last of at least two.
Linked-drop :
    (n : ℕ → Node) (before head tail p q : ℕ) (ps : List ℕ)
    → Linked n before head tail (p ∷ q ∷ ps)
    → Linked (set_next (n tail).prev 0 n) before head (n tail).prev (p ∷ init (q ∷ ps))
Linked-drop n before head tail p q [] k =
    let at : (n tail).prev ≡ p = ap (λ a. (n a).prev) k.4.4 ∙ k.4.2 in ground arith
Linked-drop n before head tail p q (r ∷ ps) k =
    let x = (n tail).prev in
    let rest = Linked-drop n p (n p).next tail q r ps k.4 in
    let ne =
      tail_inside (set_next x 0 n) p (n p).next x p (q ∷ init (r ∷ ps))
        (Absent-init p (q ∷ r ∷ ps) k.3) rest in
    let same : set_next x 0 n p ≡ n p =
      update_ne n x (record (n x) { next = 0 }) (λ e. ne (sym e)) in
    (
      k.0,
      k.1,
      ap (λ (w : Node). w.prev) same ∙ k.2,
      Absent-init p (q ∷ r ∷ ps) k.3,
      subst (λ (w : Node). Linked (set_next x 0 n) p w.next x (q ∷ init (r ∷ ps))) (sym same) rest,
    )

-- `list_remove_back` of a list of two or more takes the last node out, answers its value and gives
-- the node back.
pub list_remove_back-Without :
    (l : DList) (m : Memory) (p q : ℕ) (ps : List ℕ)
    → IsList m l (p ∷ q ∷ ps)
    → let (v, l', m') = list_remove_back l m in Without m l.tail (p ∷ init (q ∷ ps)) v l' m'
unfolding list_remove_back
list_remove_back-Without l m p q ps k =
    let (at, some, _) = Linked-head m.nodes 0 l.head l.tail p (q ∷ ps) k.shape in
    let rest = Linked-drop m.nodes 0 l.head l.tail p q ps k.shape in
    let real =
      tail_real (set_next (m.nodes l.tail).prev 0 m.nodes) 0 l.head (m.nodes l.tail).prev
        (p ∷ init (q ∷ ps)) rest in
    rw (if_false (l.head == 0) _ _ (rw at (ne→== p 0 some))) (
      rw (if_false ((m.nodes l.tail).prev == 0) _ _ (ne→== _ 0 real)) (record {
        value = refl;
        list = record {
          shape = rest;
          count = omega (arith, k.count, k.few, length-init q ps);
          few = omega (arith, k.few, length-init q ps);
        };
        same_values = values-set_next m.nodes (m.nodes l.tail).prev 0 (p ∷ init (q ∷ ps));
        given_back = refl;
      }))

-- Of a list with one node, `list_remove_back` gives the node back and leaves the head pointing to
-- it: the list does not become empty.
pub list_remove_back-dangling :
    (l : DList) (m : Memory) (p : ℕ)
    → IsList m l (p ∷ [])
    → let (v, l', m') = list_remove_back l m in
      (l'.head ≡ p) × (l'.head ≢ 0) × (l'.size ≡ 0) × (m'.freed ≡ p ∷ m.freed) × ¬ (IsList m' l' [])
unfolding list_remove_back
list_remove_back-dangling l m p k =
    rw (if_false (l.head == 0) _ _ (rw k.shape.0 (ne→== p 0 k.shape.1)))
      (k.shape.0, real, omega (arith, k.count), ap (λ t. t ∷ m.freed) k.shape.4, λ e. real e.shape)
  where
    real : l.head ≢ 0
    real e = k.shape.1 (sym k.shape.0 ∙ e)
