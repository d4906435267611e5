-- ===== src/DList/Search.antt =====
-- The functions of list.c that walk along a list.
use piggy_os.Base.{
  ℕ, zero, suc, ◌+◌, ◌-◌, ◌^◌, ◌<◌, ◌≤◌, ◌≡◌, ◌≢◌, refl, sym, ap, ◌∙◌, List, [], ◌∷◌, arith, ◌==◌,
  leb, if◌then◌else◌, add32, length, Option, none, some, if_true, if_false, Bool-cases, inl, inr,
}
use piggy_os.DList.{Node, DList, Memory, Removed, list_remove_node}
use piggy_os.DList.Linked.{Linked, Shape, IsList}

-- `foreach` of `list_contain` on `fuel` rounds; `none` where the fuel runs out, `some 0` for NULL.
pub contain_from : ℕ → (value p : ℕ) → (ℕ → Node) → Option ℕ
contain_from zero value p n = none
contain_from (suc fuel) value p n =
    let rest = contain_from fuel value (n p).next n in
    if p == 0 then some 0 else if (n p).value == value then some p else rest

unfoldable pub list_contain : (fuel value : ℕ) → DList → Memory → Option ℕ
unfolding contain_from
list_contain fuel value l m = contain_from fuel value l.head m.nodes

-- `foreach` of `list_get_node_by_index`.
pub index_from : ℕ → (index curr p : ℕ) → (ℕ → Node) → Option ℕ
index_from zero index curr p n = none
index_from (suc fuel) index curr p n =
    let rest = index_from fuel index (add32 curr 1) (n p).next n in
    if p == 0 then some 0 else if index == curr then some p else rest

unfoldable pub list_get_node_by_index : (fuel index : ℕ) → DList → Memory → Option ℕ
unfolding index_from
list_get_node_by_index fuel index l m =
    if leb l.size index then some 0 else index_from fuel index 0 l.head m.nodes

abbrev pub remove_found : Option ℕ → DList → Memory → Option Removed
remove_found none l m = none
remove_found (some p) l m = some (list_remove_node p l m)

unfoldable pub list_remove_by_index : (fuel index : ℕ) → DList → Memory → Option Removed
unfolding list_get_node_by_index
list_remove_by_index fuel index l m = remove_found (list_get_node_by_index fuel index l m) l m

-- The nodes from `p` on, to the end of the list.
abbrev pub From : (ℕ → Node) → (p : ℕ) → List ℕ → Type 0
From n p [] = p ≡ 0
From n p (q ∷ qs) = (p ≡ q) × (q ≢ 0) × From n (n q).next qs

-- The address of the first node with a value, 0 where there is none.
abbrev pub first_with : (ℕ → Node) → ℕ → List ℕ → ℕ
first_with n value [] = 0
first_with n value (p ∷ ps) = if (n p).value == value then p else first_with n value ps

-- The element at an index, 0 behind the end.
abbrev pub element : ℕ → List ℕ → ℕ
element index [] = 0
element zero (p ∷ ps) = p
element (suc index) (p ∷ ps) = element index ps

Linked-From :
    (n : ℕ → Node) (before head tail p : ℕ) (ps : List ℕ)
    → Linked n before head tail (p ∷ ps)
    → From n head (p ∷ ps)
Linked-From n before head tail p [] k = (k.0, k.1, k.3)
Linked-From n before head tail p (q ∷ ps) k = (k.0, k.1, Linked-From n p (n p).next tail q ps k.4)

pub Shape-From : (n : ℕ → Node) (l : DList) (ps : List ℕ) → Shape n l ps → From n l.head ps
Shape-From n l [] k = k
Shape-From n l (p ∷ ps) k = Linked-From n 0 l.head l.tail p ps k

contain_from-first :
    (fuel value p : ℕ) (n : ℕ → Node) (ps : List ℕ)
    → From n p ps
    → length ps < fuel
    → contain_from fuel value p n ≡ some (first_with n value ps)
unfolding contain_from
contain_from-first zero value p n ps k h = absurd (omega arith)
contain_from-first (suc fuel) value p n [] k h = ground arith
contain_from-first (suc fuel) value p n (q ∷ qs) k h =
    ground (arith, contain_from-first fuel value (n q).next n qs k.2 (omega arith))

-- With more rounds than there are nodes, `list_contain` answers the first node that holds the
-- value, and NULL where none does.
pub list_contain-first :
    (fuel value : ℕ) (l : DList) (m : Memory) (ps : List ℕ)
    → IsList m l ps
    → length ps < fuel
    → list_contain fuel value l m ≡ some (first_with m.nodes value ps)
unfolding list_contain
list_contain-first fuel value l m ps k h =
    contain_from-first fuel value l.head m.nodes ps (Shape-From m.nodes l ps k.shape) h

index_from-element :
    (fuel index curr p : ℕ) (n : ℕ → Node) (ps : List ℕ)
    → From n p ps
    → length ps < fuel
    → curr ≤ index
    → curr + length ps < 2 ^ 32
    → index_from fuel index curr p n ≡ some (element (index - curr) ps)
unfolding index_from
index_from-element zero index curr p n ps k h c small = absurd (omega arith)
index_from-element (suc fuel) index curr p n [] k h c small = ground arith
index_from-element (suc fuel) index curr p n (q ∷ qs) k h c small =
    if_false (p == 0) _ _ (ground (arith, k.0, k.1)) ∙ (elim (Bool-cases (index == curr)) [
      | inl e ↦
          let first : index - curr ≡ 0 = ground arith in
          if_true (index == curr) _ _ e
          ∙ ap some k.0
          ∙ ap (λ (i : ℕ). some (element i (q ∷ qs))) (sym first)
      | inr e ↦
          let up : add32 curr 1 ≡ suc curr = omega arith in
          let later : index - curr ≡ suc (index - suc curr) = ground arith in
          let rest =
            index_from-element fuel index (suc curr) (n q).next n qs k.2 (omega arith)
              (ground arith) (omega arith) in
          if_false (index == curr) _ _ e
          ∙ rw up (ap (λ (t : ℕ). index_from fuel index (suc curr) (n t).next n) k.0)
          ∙ rest
          ∙ ap (λ (i : ℕ). some (element i (q ∷ qs))) (sym later)
    ])

element_behind : (index : ℕ) (ps : List ℕ) → length ps ≤ index → element index ps ≡ 0
element_behind index [] h = refl
element_behind zero (p ∷ ps) h = absurd (omega arith)
element_behind (suc index) (p ∷ ps) h = element_behind index ps (omega arith)

-- `list_get_node_by_index` answers the node at the index, and NULL behind the end.
pub list_get_node_by_index-element :
    (fuel index : ℕ) (l : DList) (m : Memory) (ps : List ℕ)
    → IsList m l ps
    → length ps < fuel
    → list_get_node_by_index fuel index l m ≡ some (element index ps)
unfolding list_get_node_by_index
list_get_node_by_index-element fuel index l m ps k h = elim (Bool-cases (leb l.size index)) [
  | inl e ↦
      if_true (leb l.size index) _ _ e
      ∙ ap some (sym (element_behind index ps (ground (arith, k.count))))
  | inr e ↦
      if_false (leb l.size index) _ _ e
      ∙ index_from-element fuel index 0 l.head m.nodes ps (Shape-From m.nodes l ps k.shape) h
          (omega arith) (omega (arith, k.few))
      ∙ ap (λ (i : ℕ). some (element i ps)) from_zero
]
  where
    from_zero : index - 0 ≡ index
    from_zero = omega arith
