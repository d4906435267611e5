-- ===== src/RootFs/Walk.antt =====
-- The walk over the nodes of the root directory, and `rootfs_finddir`.
use piggy_os.Base.{
  ℕ, zero, suc, ◌<◌, ◌≡◌, ◌≢◌, sym, ap, ◌∙◌, List, [], ◌∷◌, arith, Bool, false, Option, some, ◌==◌,
  if◌then◌else◌, length, if_true, if_false, then_with,
}
use piggy_os.Strings as Strings
use piggy_os.Strings.{strcmp}
use piggy_os.Strings.Compare.{HasString, order, strcmp-order}
use piggy_os.DList.{Node}
use piggy_os.DList.Linked.{IsList, values}
use piggy_os.DList.Search.{From, Shape-From}
use piggy_os.RootFs.{RootFs, find_from, if_equal, rootfs_finddir, spin_lock, lock_set}

-- Every node of the list is at an address other than 0, where its name stands.
abbrev pub Named : Strings.Memory → (ℕ → List ℕ) → List ℕ → Type 0
Named mem names [] = Unit
Named mem names (v ∷ vs) = (v ≢ 0) × HasString mem v (names v) × Named mem names vs

-- The first node with the name `key`, 0 where there is none.
unfoldable pub lookup : (ℕ → List ℕ) → List ℕ → List ℕ → ℕ
lookup names key [] = 0
lookup names key (v ∷ vs) = if order key (names v) == 0 then v else lookup names key vs

-- No two nodes have the same name.
abbrev pub Unique : (ℕ → List ℕ) → List ℕ → Type 0
Unique names [] = Unit
Unique names (v ∷ vs) = (lookup names (names v) vs ≡ 0) × Unique names vs

-- The nodes of a directory in the state `s`, the last one registered first: the cells `ps` hold
-- them, and `names` gives their names.
pub record Holds (names : ℕ → List ℕ) (s : RootFs) (ps vs : List ℕ) : Type 0 where
  pub list : IsList s.cells s.root_nodes ps
  pub nodes : values s.cells.nodes ps ≡ vs
  pub named : Named s.bytes names vs
  pub unique : Unique names vs
  pub counted : s.root_files ≡ length ps
  pub unlocked : s.rootfs_lock ≡ false

pub find_from-lookup :
    (rounds fuel name p : ℕ) (mem : Strings.Memory) (n : ℕ → Node) (names : ℕ → List ℕ)
    (key ps : List ℕ)
    → From n p ps
    → Named mem names (values n ps)
    → HasString mem name key
    → length key < rounds
    → length ps < fuel
    → find_from rounds fuel name p mem n ≡ some (lookup names key (values n ps))
unfolding find_from lookup
find_from-lookup rounds zero name p mem n names key ps k w h r f = absurd (omega arith)
find_from-lookup rounds (suc fuel) name p mem n names key [] k w h r f =
    if_true (p == 0) _ _ (ground arith)
find_from-lookup rounds (suc fuel) name p mem n names key (q ∷ qs) k w h r f =
    let v = (n q).value in
    let rest =
      find_from-lookup rounds fuel name (n q).next mem n names key qs k.2 w.2 h r (omega arith) in
    let compared = strcmp-order rounds name v mem key (names v) h w.1 r in
    if_false (p == 0) _ _ (ground (arith, k.0, k.1))
    ∙ ap
        (λ (t : ℕ).
          if_equal (strcmp rounds name (n t).value mem) (n t).value
            (find_from rounds fuel name (n t).next mem n))
        k.0
    ∙ ap (λ c. if_equal c v (find_from rounds fuel name (n q).next mem n)) compared
    ∙ ground (arith, rest)

-- `rootfs_finddir` answers the first node with the name, NULL where there is none, and leaves the
-- directory as it was, with the lock released.
pub rootfs_finddir-lookup :
    (rounds fuel name : ℕ) (s : RootFs) (names : ℕ → List ℕ) (key ps vs : List ℕ)
    → Holds names s ps vs
    → HasString s.bytes name key
    → length key < rounds
    → length ps < fuel
    → rootfs_finddir rounds fuel name s ≡ some (lookup names key vs, s)
unfolding rootfs_finddir
rootfs_finddir-lookup rounds fuel name s names key ps vs d h r f =
    let look : Option Bool → Option (ℕ × RootFs) = λ lock. then_with lock λ held.
      then_with (find_from rounds fuel name s.root_nodes.head s.bytes s.cells.nodes)
        λ result. some (result, lock_set false s) in
    let found =
      find_from-lookup rounds fuel name s.root_nodes.head s.bytes s.cells.nodes names key ps
        (Shape-From s.cells.nodes s.root_nodes ps d.list.shape) (rw d.nodes d.named) h r f in
    ap (λ lock. look (spin_lock lock)) d.unlocked
    ∙ ap (λ o. then_with o λ result. answer result (lock_set false s)) found
    ∙ ap (λ us. answer (lookup names key us) (lock_set false s)) d.nodes
    ∙ ap (λ lock. answer (lookup names key vs) (lock_set lock s)) (sym d.unlocked)
  where
    answer : ℕ → RootFs → Option (ℕ × RootFs)
    answer result t = some (result, t)
