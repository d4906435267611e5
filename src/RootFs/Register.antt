-- ===== src/RootFs/Register.antt =====
-- `fs_register`, and its round trip with `rootfs_finddir`.
use piggy_os.Base.{
  ℕ, suc, ◌^◌, ◌<◌, ◌≡◌, ◌≢◌, refl, sym, ap, ◌∙◌, List, ◌∷◌, arith, Bool, false, Option, some, ◌==◌,
  if◌then◌else◌, length, if_true, if_false, then_with, ne→==, ==_refl, subst,
}
use piggy_os.Strings.Compare.{HasString, order, order_self}
use piggy_os.DList.Linked.{Absent}
use piggy_os.DList.Insert.{list_insert_front-IsList}
use piggy_os.DList.Search.{Shape-From}
use piggy_os.RootFs.{RootFs, find_from, rootfs_finddir, fs_register, spin_lock, lock_set, added}
use piggy_os.RootFs.Walk.{lookup, Holds, find_from-lookup, rootfs_finddir-lookup}

-- The test of `fs_register`, on the answer of its walk.
abbrev decide_on : (cell node found : ℕ) → RootFs → Option RootFs
decide_on cell node found s =
    if found == 0 then some (lock_set false (added cell node s)) else some (lock_set false s)

register-run :
    (rounds fuel cell node : ℕ) (s : RootFs) (names : ℕ → List ℕ) (ps vs : List ℕ)
    → Holds names s ps vs
    → HasString s.bytes node (names node)
    → length (names node) < rounds
    → length ps < fuel
    → fs_register rounds fuel cell node s ≡ decide_on cell node (lookup names (names node) vs) s
unfolding fs_register
register-run rounds fuel cell node s names ps vs d h r f =
    let walk : Option Bool → Option RootFs = λ lock. then_with lock λ held.
      then_with (find_from rounds fuel node s.root_nodes.head s.bytes s.cells.nodes)
        λ found. decide_on cell node found s in
    let found =
      find_from-lookup rounds fuel node s.root_nodes.head s.bytes s.cells.nodes names (names node)
        ps (Shape-From s.cells.nodes s.root_nodes ps d.list.shape) (rw d.nodes d.named) h r f in
    ap (λ lock. walk (spin_lock lock)) d.unlocked
    ∙ ap (λ o. then_with o λ t. decide_on cell node t s) found
    ∙ ap (λ us. decide_on cell node (lookup names (names node) us) s) d.nodes

-- `fs_register` of a node whose name no other one has puts it in front of the others, which keeps
-- the names unique; no bytes of names change.
pub fs_register-Holds :
    (rounds fuel cell node : ℕ) (s : RootFs) (names : ℕ → List ℕ) (ps vs : List ℕ)
    → Holds names s ps vs
    → HasString s.bytes node (names node)
    → node ≢ 0
    → cell ≢ 0
    → Absent cell ps
    → length (names node) < rounds
    → length ps < fuel
    → suc (length ps) < 2 ^ 32
    → lookup names (names node) vs ≡ 0
    → (s' : RootFs) × (fs_register rounds fuel cell node s ≡ some s')
      × Holds names s' (cell ∷ ps) (node ∷ vs)
      × (s'.bytes ≡ s.bytes)
fs_register-Holds rounds fuel cell node s names ps vs d h real some_cell free r f room new =
    let (list, kept) =
      list_insert_front-IsList cell node s.root_nodes s.cells ps d.list some_cell free room in
    (
      lock_set false (added cell node s),
      register-run rounds fuel cell node s names ps vs d h r f
          ∙ if_true (lookup names (names node) vs == 0) _ _ (rw new (==_refl 0)),
      record {
        list = list;
        nodes = kept ∙ ap (λ us. node ∷ us) d.nodes;
        named = (real, h, d.named);
        unique = (new, d.unique);
        counted = omega (arith, d.counted);
        unlocked = refl;
      },
      refl,
    )

-- `fs_register` of a node whose name is taken changes nothing.
pub fs_register-taken :
    (rounds fuel cell node : ℕ) (s : RootFs) (names : ℕ → List ℕ) (ps vs : List ℕ)
    → Holds names s ps vs
    → HasString s.bytes node (names node)
    → length (names node) < rounds
    → length ps < fuel
    → lookup names (names node) vs ≢ 0
    → fs_register rounds fuel cell node s ≡ some s
fs_register-taken rounds fuel cell node s names ps vs d h r f taken =
    register-run rounds fuel cell node s names ps vs d h r f
    ∙ if_false (lookup names (names node) vs == 0) _ _
        (ne→== (lookup names (names node) vs) 0 taken)
    ∙ ap (λ lock. some (lock_set lock s)) (sym d.unlocked)

-- A node that was registered under a new name is found under that name.
pub rootfs_finddir-fs_register :
    (rounds fuel cell node name : ℕ) (s : RootFs) (names : ℕ → List ℕ) (ps vs : List ℕ)
    → Holds names s ps vs
    → HasString s.bytes node (names node)
    → HasString s.bytes name (names node)
    → node ≢ 0
    → cell ≢ 0
    → Absent cell ps
    → length (names node) < rounds
    → suc (length ps) < fuel
    → suc (length ps) < 2 ^ 32
    → lookup names (names node) vs ≡ 0
    → (s' : RootFs) × (fs_register rounds fuel cell node s ≡ some s')
      × (rootfs_finddir rounds fuel name s' ≡ some (node, s'))
unfolding lookup
rootfs_finddir-fs_register rounds fuel cell node name s names ps vs d h k real some_cell free r f
      room new =
    let (s', run, holds, same) =
      fs_register-Holds rounds fuel cell node s names ps vs d h real some_cell free r (omega arith)
        room new in
    (
      s',
      run,
      rootfs_finddir-lookup rounds fuel name s' names (names node) (cell ∷ ps) (node ∷ vs) holds
            (subst (λ mem. HasString mem name (names node)) (sym same) k) r f
          ∙ ap (λ (t : ℕ). some (t, s'))
              (if_true (order (names node) (names node) == 0) _ _
                (rw (order_self (names node)) (==_refl 0))),
    )
