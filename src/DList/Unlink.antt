-- ===== src/DList/Unlink.antt =====
-- `list_remove_node` of a node in the middle of a list.
use piggy_os.Base.{
  ℕ, suc, ◌≡◌, ◌≢◌, refl, sym, ap, ◌∙◌, List, [], ◌∷◌, ◌++◌, arith, ◌==◌, update_ne, length, subst,
  if_false, ne→==,
}
use piggy_os.DList.{Node, DList, Memory, set_prev, set_next, unlink, list_remove_node}
use piggy_os.DList.Linked.{
  Absent, Linked, Linked-head, IsList, Linked-update, Linked-set_prev, values-set_prev,
  values-set_next, tail_inside,
}
use piggy_os.DList.Remove.{Without}

-- The nodes with `y` and `c` joined.
abbrev joined : (ℕ → Node) → (y c : ℕ) → ℕ → Node
joined n y c = set_next y c (set_prev c y n)

abbrev unlink_via : (y c p : ℕ) → (ℕ → Node) → ℕ → Node
unlink_via y c p n = let n' = set_prev c y n in set_next (n' p).prev (n' p).next n'

unlink-joined :
    (n : ℕ → Node) (p c : ℕ) → (n p).next ≡ c → c ≢ p → unlink p n ≡ joined n (n p).prev c
unlink-joined n p c next ne =
    let y = (n p).prev in
    let n' = set_prev c y n in
    let same : n' p ≡ n p = update_ne n c (record (n c) { prev = y }) ne in
    ap (λ c'. unlink_via y c' p n) next
    ∙ ap (λ (w : Node). set_next w.prev w.next n') same
    ∙ ap (λ c'. set_next y c' n') next

-- The neighbours of `p` are other nodes of the list.
neighbours :
    (n : ℕ → Node) (before head tail a p c : ℕ) (mid cs : List ℕ)
    → Linked n before head tail (a ∷ (mid ++ (p ∷ c ∷ cs)))
    → ((n p).next ≡ c) × (c ≢ p) × (p ≢ tail)
neighbours n before head tail a p c [] cs k =
    let (at, _, _) = Linked-head n p (n p).next tail c cs k.4.4 in
    (at, (λ e. k.4.3.0 (sym e)), tail_inside n p (n p).next tail p (c ∷ cs) k.4.3 k.4.4)
neighbours n before head tail a p c (b ∷ mid) cs k = neighbours n a (n a).next tail b p c mid cs k.4

others :
    (n : ℕ → Node) (before head tail a p c x : ℕ) (mid cs : List ℕ)
    → Absent x (a ∷ (mid ++ (p ∷ c ∷ cs)))
    → Linked n before head tail (a ∷ (mid ++ (p ∷ c ∷ cs)))
    → (x ≢ (n p).prev) × (x ≢ c) × (x ≢ p)
others n before head tail a p c x [] cs out k = ((λ e. out.0 (e ∙ k.4.2)), out.1.1.0, out.1.0)
others n before head tail a p c x (b ∷ mid) cs out k =
    others n a (n a).next tail b p c x mid cs out.1 k.4

first_other :
    (n : ℕ → Node) (before head tail a p c : ℕ) (mid cs : List ℕ)
    → Linked n before head tail (a ∷ (mid ++ (p ∷ c ∷ cs)))
    → a ≢ p
first_other n before head tail a p c [] cs k = k.3.0
first_other n before head tail a p c (b ∷ mid) cs k =
    (others n a (n a).next tail b p c a mid cs k.3 k.4).2

Absent-middle :
    (x a p : ℕ) (mid qs : List ℕ) → Absent x (a ∷ (mid ++ (p ∷ qs))) → Absent x (a ∷ (mid ++ qs))
Absent-middle x a p [] qs out = (out.0, out.1.1)
Absent-middle x a p (b ∷ mid) qs out = (out.0, Absent-middle x b p mid qs out.1)

joined-left :
    (n : ℕ → Node) (a c : ℕ)
    → a ≢ c
    → ((joined n a c a).prev ≡ (n a).prev) × ((joined n a c a).next ≡ c)
joined-left n a c ne = ground arith

Linked-unlink :
    (n : ℕ → Node) (before head tail a p c : ℕ) (mid cs : List ℕ)
    → Linked n before head tail (a ∷ (mid ++ (p ∷ c ∷ cs)))
    → Linked (joined n (n p).prev c) before head tail (a ∷ (mid ++ (c ∷ cs)))
Linked-unlink n before head tail a p c [] cs k =
    let (next, _, _) = Linked-head n p (n p).next tail c cs k.4.4 in
    let one : Linked (set_prev c a n) a c tail (c ∷ cs) =
      subst (λ h. Linked (set_prev h a n) a h tail (c ∷ cs)) next
        (Linked-set_prev n p (n p).next tail a c cs k.4.4) in
    let two =
      Linked-update (set_prev c a n) a c tail a (record (set_prev c a n a) { next = c }) (c ∷ cs)
        k.3.1 one in
    let (left, right) = joined-left n a c k.3.1.0 in
    subst (λ y. Linked (joined n y c) before head tail (a ∷ c ∷ cs)) (sym k.4.2)
      (
        k.0,
        k.1,
        left ∙ k.2,
        k.3.1,
        subst (λ h. Linked (joined n a c) a h tail (c ∷ cs)) (sym right) two,
      )
Linked-unlink n before head tail a p c (b ∷ mid) cs k =
    let y = (n p).prev in
    let rest = Linked-unlink n a (n a).next tail b p c mid cs k.4 in
    let (not_prev, not_next, _) = others n a (n a).next tail b p c a mid cs k.3 k.4 in
    let same : joined n y c a ≡ n a =
      update_ne (set_prev c y n) y (record (set_prev c y n y) { next = c }) (λ e. not_prev (sym e))
      ∙ update_ne n c (record (n c) { prev = y }) (λ e. not_next (sym e)) in
    (
      k.0,
      k.1,
      ap (λ (w : Node). w.prev) same ∙ k.2,
      Absent-middle a b p mid (c ∷ cs) k.3,
      subst (λ (w : Node). Linked (joined n y c) a w.next tail (b ∷ (mid ++ (c ∷ cs)))) (sym same)
          rest,
    )

length-middle : (p : ℕ) (mid qs : List ℕ) → length (mid ++ (p ∷ qs)) ≡ suc (length (mid ++ qs))
length-middle p [] qs = refl
length-middle p (b ∷ mid) qs = ap suc (length-middle p mid qs)

-- `list_remove_node` of a node that is neither the first nor the last takes out that node alone,
-- answers its value and gives it back.
pub list_remove_node-Without :
    (l : DList) (m : Memory) (a p c : ℕ) (mid cs : List ℕ)
    → IsList m l (a ∷ (mid ++ (p ∷ c ∷ cs)))
    → let (v, l', m') = list_remove_node p l m in Without m p (a ∷ (mid ++ (c ∷ cs))) v l' m'
unfolding list_remove_node
list_remove_node-Without l m a p c mid cs k =
    let n = m.nodes in
    let (next, ne, not_tail) = neighbours n 0 l.head l.tail a p c mid cs k.shape in
    let (at, _, _) = Linked-head n 0 l.head l.tail a (mid ++ (p ∷ c ∷ cs)) k.shape in
    let same = unlink-joined n p c next ne in
    let not_head : l.head ≢ p =
      λ e. first_other n 0 l.head l.tail a p c mid cs k.shape (sym at ∙ e) in
    let n' = set_prev (n p).next (n p).prev n in
    let left = a ∷ (mid ++ (c ∷ cs)) in
    rw (if_false (l.head == p) _ _ (ne→== l.head p not_head)) (
      rw (if_false (l.tail == p) _ _ (ne→== l.tail p (λ e. not_tail (sym e)))) (record {
        value = refl;
        list = record {
          shape =
              subst (λ w. Linked w 0 l.head l.tail (a ∷ (mid ++ (c ∷ cs)))) (sym same)
                (Linked-unlink n 0 l.head l.tail a p c mid cs k.shape);
          count = omega (arith, k.count, k.few, length-middle p mid (c ∷ cs));
          few = omega (arith, k.few, length-middle p mid (c ∷ cs));
        };
        same_values =
            values-set_next n' (n' p).prev (n' p).next left
            ∙ values-set_prev n (n p).next (n p).prev left;
        given_back = refl;
      }))
