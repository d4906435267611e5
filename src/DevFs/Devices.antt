-- ===== src/DevFs/Devices.antt =====
-- The device directory keeps what it is given: `devfs_register` and `devfs_finddir`.
use piggy_os.Base.{
  ℕ, suc, ◌^◌, ◌<◌, ◌≡◌, ◌≢◌, refl, sym, ap, ◌∙◌, List, ◌∷◌, Bool, false, Option, some, ◌==◌,
  if◌then◌else◌, length, if_true, if_false, then_with, ne→==, ==_refl,
}
use piggy_os.Strings.Compare.{HasString}
use piggy_os.DList.Linked.{IsList, Absent, values}
use piggy_os.DList.Insert.{list_insert_front-IsList}
use piggy_os.DList.Search.{Shape-From}
use piggy_os.RootFs.{spin_lock, find_from}
use piggy_os.RootFs.Walk.{lookup, Named, Unique, find_from-lookup}
use piggy_os.DevFs.{DevFs, lock_devices, with_device, devfs_finddir, devfs_register}

-- The devices of the state `s`, the last one registered first, in the cells `ps`.
pub record HasDevices (names : ℕ → List ℕ) (s : DevFs) (ps vs : List ℕ) : Type 0 where
  pub list : IsList s.cells s.devlist ps
  pub nodes : values s.cells.nodes ps ≡ vs
  pub named : Named s.bytes names vs
  pub unique : Unique names vs
  pub unlocked : s.devfs_lock ≡ false

find_device :
    (rounds fuel name : ℕ) (s : DevFs) (names : ℕ → List ℕ) (key ps vs : List ℕ)
    → HasDevices names s ps vs
    → HasString s.bytes name key
    → length key < rounds
    → length ps < fuel
    → find_from rounds fuel name s.devlist.head s.bytes s.cells.nodes ≡ some (lookup names key vs)
find_device rounds fuel name s names key ps vs d h r f =
    find_from-lookup rounds fuel name s.devlist.head s.bytes s.cells.nodes names key ps
      (Shape-From s.cells.nodes s.devlist ps d.list.shape) (rw d.nodes d.named) h r f
    ∙ ap (λ us. some (lookup names key us)) d.nodes

abbrev decide_device : (cell device found : ℕ) → DevFs → Option DevFs
decide_device cell device found s =
    if found == 0
    then some (lock_devices false (with_device cell device s))
    else some (lock_devices false s)

register_device :
    (rounds fuel cell device : ℕ) (s : DevFs) (names : ℕ → List ℕ) (ps vs : List ℕ)
    → HasDevices names s ps vs
    → HasString s.bytes device (names device)
    → length (names device) < rounds
    → length ps < fuel
    → devfs_register rounds fuel cell device s
      ≡ decide_device cell device (lookup names (names device) vs) s
unfolding devfs_register
register_device rounds fuel cell device s names ps vs d h r f =
    let walk : Option Bool → Option DevFs = λ lock. then_with lock λ held.
      then_with (find_from rounds fuel device s.devlist.head s.bytes s.cells.nodes)
        λ found. decide_device cell device found s in
    ap (λ lock. walk (spin_lock lock)) d.unlocked
    ∙ ap (λ o. then_with o λ t. decide_device cell device t s)
        (find_device rounds fuel device s names (names device) ps vs d h r f)

-- `devfs_register` either puts the device in front of the others, if its name is new, or changes
-- nothing; the names stay unique.
pub devfs_register-HasDevices :
    (rounds fuel cell device : ℕ) (s : DevFs) (names : ℕ → List ℕ) (ps vs : List ℕ)
    → HasDevices names s ps vs
    → HasString s.bytes device (names device)
    → device ≢ 0
    → cell ≢ 0
    → Absent cell ps
    → length (names device) < rounds
    → length ps < fuel
    → suc (length ps) < 2 ^ 32
    → (lookup names (names device) vs ≡ 0
        → (s' : DevFs) × (devfs_register rounds fuel cell device s ≡ some s')
          × HasDevices names s' (cell ∷ ps) (device ∷ vs))
      × (lookup names (names device) vs ≢ 0 → devfs_register rounds fuel cell device s ≡ some s)
devfs_register-HasDevices rounds fuel cell device s names ps vs d h real some_cell free r f room =
    let (list, kept) =
      list_insert_front-IsList cell device s.devlist s.cells ps d.list some_cell free room in
    let run = register_device rounds fuel cell device s names ps vs d h r f in
    let found = lookup names (names device) vs in
    (
      λ new. (
        lock_devices false (with_device cell device s),
        run ∙ if_true (found == 0) _ _ (rw new (==_refl 0)),
        record {
          list = list;
          nodes = kept ∙ ap (λ us. device ∷ us) d.nodes;
          named = (real, h, d.named);
          unique = (new, d.unique);
          unlocked = refl;
        },
      ),
      λ taken.
          run
          ∙ if_false (found == 0) _ _ (ne→== found 0 taken)
          ∙ ap (λ lock. some (lock_devices lock s)) (sym d.unlocked),
    )

-- `devfs_finddir` answers the first device with the name, NULL where there is none.
pub devfs_finddir-lookup :
    (rounds fuel name : ℕ) (s : DevFs) (names : ℕ → List ℕ) (key ps vs : List ℕ)
    → HasDevices names s ps vs
    → HasString s.bytes name key
    → length key < rounds
    → length ps < fuel
    → devfs_finddir rounds fuel name s ≡ some (lookup names key vs, s)
unfolding devfs_finddir
devfs_finddir-lookup rounds fuel name s names key ps vs d h r f =
    let look : Option Bool → Option (ℕ × DevFs) = λ lock. then_with lock λ held.
      then_with (find_from rounds fuel name s.devlist.head s.bytes s.cells.nodes)
        λ result. answer result (lock_devices false s) in
    ap (λ lock. look (spin_lock lock)) d.unlocked
    ∙ ap (λ o. then_with o λ result. answer result (lock_devices false s))
        (find_device rounds fuel name s names key ps vs d h r f)
    ∙ ap (λ lock. answer (lookup names key vs) (lock_devices lock s)) (sym d.unlocked)
  where
    answer : ℕ → DevFs → Option (ℕ × DevFs)
    answer result t = some (result, t)
