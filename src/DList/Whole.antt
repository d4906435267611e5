-- ===== src/DList/Whole.antt =====
-- `list_destroy` and `list_merge`, which go over a list as a whole.
use piggy_os.Base.{
  ℕ, zero, suc, ◌+◌, ◌<◌, ◌≡◌, refl, sym, ap, ◌∙◌, List, [], ◌∷◌, ◌++◌, arith, ◌==◌, false,
  if◌then◌else◌, add32, length, ◌^◌, Option, none, some, if_true, if_false, ne→==, subst, update_ne,
}
use piggy_os.DList.{Node, DList, Memory, kfree, set_prev, set_next}
use piggy_os.DList.Linked.{
  Absent, Linked, Linked-head, Linked-update, Linked-set_prev, IsList, tail_inside, tail_real,
  values, values-same,
}
use piggy_os.DList.Search.{From, Shape-From}

-- The loop of `list_destroy`, which gives the nodes back one after the other, on `fuel` rounds.
pub destroy_from : ℕ → (p : ℕ) → Memory → Option Memory
destroy_from zero p m = none
destroy_from (suc fuel) p m =
    let rest = destroy_from fuel (m.nodes p).next (kfree p m) in if p == 0 then some m else rest

abbrev pub free_list : ℕ → Option Memory → Option Memory
free_list list none = none
free_list list (some m) = some (kfree list m)

-- The list itself stands at the address `list`, and is given back last.
unfoldable pub list_destroy : (fuel list : ℕ) → DList → Memory → Option Memory
unfolding destroy_from
list_destroy fuel list l m = free_list list (destroy_from fuel l.head m)

-- `ps` in reverse order before `qs`.
abbrev pub rev_append : List ℕ → List ℕ → List ℕ
rev_append [] qs = qs
rev_append (p ∷ ps) qs = rev_append ps (p ∷ qs)

destroy_from-freed :
    (fuel p : ℕ) (m : Memory) (ps : List ℕ)
    → From m.nodes p ps
    → length ps < fuel
    → destroy_from fuel p m ≡ some (record m { freed = rev_append ps m.freed })
unfolding destroy_from
destroy_from-freed zero p m ps k h = absurd (omega arith)
destroy_from-freed (suc fuel) p m [] k h = if_true (p == 0) _ _ (ground arith)
destroy_from-freed (suc fuel) p m (q ∷ qs) k h =
    let rest = destroy_from-freed fuel (m.nodes q).next (kfree q m) qs k.2 (omega arith) in
    if_false (p == 0) _ _ (ground (arith, k.0, k.1))
    ∙ ap (λ (t : ℕ). destroy_from fuel (m.nodes t).next (kfree t m)) k.0
    ∙ rest

-- With more rounds than there are nodes, `list_destroy` gives every node back once, from head to
-- tail, and then the list.
pub list_destroy-freed :
    (fuel list : ℕ) (l : DList) (m : Memory) (ps : List ℕ)
    → IsList m l ps
    → length ps < fuel
    → list_destroy fuel list l m ≡ some (record m { freed = list ∷ rev_append ps m.freed })
unfolding list_destroy
list_destroy-freed fuel list l m ps k h =
    ap (free_list list) (destroy_from-freed fuel l.head m ps (Shape-From m.nodes l ps k.shape) h)

-- The target after `list_merge`, and the memory; the source list at the address `at` is given back,
-- its nodes stay.
unfoldable pub list_merge : (target source : DList) → (at : ℕ) → Memory → DList × Memory
list_merge target source at m =
    let n = if source.head == 0 then m.nodes else set_prev source.head target.tail m.nodes in
    let n' = if target.tail == 0 then n else set_next target.tail source.head n in
    (
      record {
        head = if target.tail == 0 then source.head else target.head;
        tail = if source.tail == 0 then target.tail else source.tail;
        size = add32 target.size source.size;
      },
      kfree at (record m { nodes = n' }),
    )

-- No address of `ps` is among `qs`.
abbrev pub Disjoint : List ℕ → List ℕ → Type 0
Disjoint [] qs = Unit
Disjoint (p ∷ ps) qs = Absent p qs × Disjoint ps qs

Disjoint-Absent : (c : ℕ) (ps cs : List ℕ) → Disjoint ps (c ∷ cs) → Absent c ps
Disjoint-Absent c [] cs d = tt
Disjoint-Absent c (p ∷ ps) cs d = ((λ e. d.0.0 (sym e)), Disjoint-Absent c ps cs d.1)

Absent-join : (x : ℕ) (ps qs : List ℕ) → Absent x ps → Absent x qs → Absent x (ps ++ qs)
Absent-join x [] qs a b = b
Absent-join x (p ∷ ps) qs a b = (a.0, Absent-join x ps qs a.1 b)

Linked-join :
    (n : ℕ → Node) (before head tail c last p : ℕ) (ps cs : List ℕ)
    → Linked n before head tail (p ∷ ps)
    → Disjoint (p ∷ ps) (c ∷ cs)
    → Linked n tail c last (c ∷ cs)
    → Linked (set_next tail c n) before head last (p ∷ (ps ++ (c ∷ cs)))
Linked-join n before head tail c last p [] cs k d s =
    let new : (set_next p c n p).next ≡ c = ground arith in
    let rest =
      Linked-update n p c last p (record (n p) { next = c }) (c ∷ cs) d.0
        (subst (λ t. Linked n t c last (c ∷ cs)) k.4 s) in
    subst (λ t. Linked (set_next t c n) before head last (p ∷ c ∷ cs)) (sym k.4)
      (
        k.0,
        k.1,
        ground arith,
        d.0,
        subst (λ h. Linked (set_next p c n) p h last (c ∷ cs)) (sym new) rest,
      )
Linked-join n before head tail c last p (q ∷ ps) cs k d s =
    let rest = Linked-join n p (n p).next tail c last q ps cs k.4 d.1 s in
    let same : set_next tail c n p ≡ n p =
      update_ne n tail (record (n tail) { next = c })
        (λ e. tail_inside n p (n p).next tail p (q ∷ ps) k.3 k.4 (sym e)) in
    (
      k.0,
      k.1,
      ap (λ (w : Node). w.prev) same ∙ k.2,
      Absent-join p (q ∷ ps) (c ∷ cs) k.3 d.0,
      subst (λ (w : Node). Linked (set_next tail c n) p w.next last (q ∷ (ps ++ (c ∷ cs))))
          (sym same) rest,
    )

length-join : (ps qs : List ℕ) → length (ps ++ qs) ≡ length ps + length qs
length-join [] qs = omega arith
length-join (p ∷ ps) qs = omega (arith, length-join ps qs)

abbrev merged : (ℕ → Node) → (target source : DList) → ℕ → Node
merged n l l' =
    let n' = if l'.head == 0 then n else set_prev l'.head l.tail n in
    if l.tail == 0 then n' else set_next l.tail l'.head n'

-- `list_merge` of two lists that are not empty and share no node puts the second behind the first,
-- with the values as they were, and gives the second list's header back.
pub list_merge-IsList :
    (l l' : DList) (list : ℕ) (m : Memory) (p c : ℕ) (ps cs : List ℕ)
    → IsList m l (p ∷ ps)
    → IsList m l' (c ∷ cs)
    → Disjoint (p ∷ ps) (c ∷ cs)
    → length (p ∷ ps) + length (c ∷ cs) < 2 ^ 32
    → let (l'', m') = list_merge l l' list m in
      let all = p ∷ (ps ++ (c ∷ cs)) in
      IsList m' l'' all × (values m'.nodes all ≡ values m.nodes all) × (m'.freed ≡ list ∷ m.freed)
unfolding list_merge
list_merge-IsList l l' list m p c ps cs j k d room =
    let n = m.nodes in
    let (at, real, _) = Linked-head n 0 l'.head l'.tail c cs k.shape in
    let n' = set_prev c l.tail n in
    let (_, _, same_prev) = Linked-head n 0 l.head l.tail p ps j.shape in
    let target = ne→== l.tail 0 (tail_real n 0 l.head l.tail (p ∷ ps) j.shape) in
    let source = ne→== l'.tail 0 (tail_real n 0 l'.head l'.tail (c ∷ cs) k.shape) in
    let start : (l'.head == 0) ≡ false = rw at (ne→== c 0 real) in
    let second : Linked n' l.tail c l'.tail (c ∷ cs) =
      Linked-set_prev n 0 c l'.tail l.tail c cs
        (subst (λ h. Linked n 0 h l'.tail (c ∷ cs)) at k.shape) in
    let first : Linked n' 0 l.head l.tail (p ∷ ps) =
      Linked-update n 0 l.head l.tail c (record (n c) { prev = l.tail }) (p ∷ ps)
        (Disjoint-Absent c (p ∷ ps) cs d) j.shape in
    let joined = Linked-join n' 0 l.head l.tail c l'.tail p ps cs first d second in
    let all = p ∷ (ps ++ (c ∷ cs)) in
    let count : l.size + l'.size ≡ length all =
      omega (arith, j.count, k.count, length-join ps (c ∷ cs)) in
    (
      rw target (
          rw source (
            rw start (
              rw at (record {
                shape = joined;
                count = omega (arith, count, length-join ps (c ∷ cs), room);
                few = omega (arith, length-join ps (c ∷ cs), room);
              })))),
      values-same n (merged n l l') all (λ x. ground arith),
      refl,
    )
