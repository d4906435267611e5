-- ===== src/RootFs/Tests.antt =====
-- Runs of the root directory with two nodes.
use piggy_os.Base.{ℕ, ◌≡◌, ◌≢◌, refl, List, [], ◌∷◌, arith, true, false, some, ◌==◌, if◌then◌else◌}
use piggy_os.Strings as Strings
use piggy_os.Strings.{minus_one}
use piggy_os.Strings.Compare.{HasString}
use piggy_os.DList.{Node, blank_node}
use piggy_os.RootFs.{RootFs, fs_register, rootfs_finddir, rootfs_readdir, lock_set}
use piggy_os.RootFs.Walk.{lookup, Holds, rootfs_finddir-lookup}
use piggy_os.RootFs.Register.{fs_register-Holds, fs_register-taken, rootfs_finddir-fs_register}
use piggy_os.RootFs.Entries.{Shows, rootfs_readdir-Shows}

-- "d" at 100 and 300, "t" at 200, and "d" again at 400.
abbrev bytes : Strings.Memory
bytes p =
    if p == 100
    then 100
    else if p == 200
    then 116
    else if p == 300
    then 100
    else if p == 400
    then 120
    else 0

abbrev names : ℕ → List ℕ
names v =
    if v == 100
    then 100 ∷ []
    else if v == 200
    then 116 ∷ []
    else if v == 300
    then 100 ∷ []
    else if v == 400
    then 120 ∷ []
    else []

abbrev cells : ℕ → Node
cells p =
    if p == 16
    then record { prev = 0; next = 32; value = 200 }
    else if p == 32
    then record { prev = 16; next = 0; value = 100 }
    else blank_node

abbrev two : RootFs
two = record {
  root_nodes = record { head = 16; tail = 32; size = 2 };
  rootfs_lock = false;
  root_files = 2;
  bytes = bytes;
  cells = record { nodes = cells; freed = [] };
  dirents = λ _. record { flags = 0; inode = 0; offset = 0 };
  node_flags = λ _. 2;
}

two-Holds : Holds names two (16 ∷ 32 ∷ []) (200 ∷ 100 ∷ [])
unfolding lookup
two-Holds = record {
  list = record {
    shape = (refl, omega arith, refl, (omega arith, tt), (refl, omega arith, refl, refl, refl));
    count = refl;
    few = omega arith;
  };
  nodes = refl;
  named = (omega arith, (refl, omega arith, refl), (omega arith, (refl, omega arith, refl), tt));
  unique = (refl, (refl, tt));
  counted = refl;
  unlocked = refl;
}

x-HasString : HasString bytes 400 (120 ∷ [])
x-HasString = (refl, omega arith, refl)

d-HasString : HasString bytes 300 (100 ∷ [])
d-HasString = (refl, omega arith, refl)

x_new : lookup names (120 ∷ []) (200 ∷ 100 ∷ []) ≡ 0
unfolding lookup
x_new = refl

d_taken : lookup names (100 ∷ []) (200 ∷ 100 ∷ []) ≢ 0
unfolding lookup
d_taken = omega arith

rootfs_finddir-lookup_run :
    rootfs_finddir 2 3 300 two ≡ some (lookup names (100 ∷ []) (200 ∷ 100 ∷ []), two)
rootfs_finddir-lookup_run =
    rootfs_finddir-lookup 2 3 300 two names (100 ∷ []) (16 ∷ 32 ∷ []) (200 ∷ 100 ∷ []) two-Holds
      d-HasString (omega arith) (omega arith)

fs_register-Holds_run :
    (s' : RootFs) × (fs_register 2 3 48 400 two ≡ some s')
    × Holds names s' (48 ∷ 16 ∷ 32 ∷ []) (400 ∷ 200 ∷ 100 ∷ [])
    × (s'.bytes ≡ bytes)
fs_register-Holds_run =
    fs_register-Holds 2 3 48 400 two names (16 ∷ 32 ∷ []) (200 ∷ 100 ∷ []) two-Holds x-HasString
      (omega arith) (omega arith) (omega arith, (omega arith, tt)) (omega arith) (omega arith)
      (omega arith) x_new

fs_register-taken_run : fs_register 2 3 48 300 two ≡ some two
fs_register-taken_run =
    fs_register-taken 2 3 48 300 two names (16 ∷ 32 ∷ []) (200 ∷ 100 ∷ []) two-Holds d-HasString
      (omega arith) (omega arith) d_taken

rootfs_finddir-fs_register_example :
    (s' : RootFs) × (fs_register 2 4 48 400 two ≡ some s')
    × (rootfs_finddir 2 4 400 s' ≡ some (400, s'))
rootfs_finddir-fs_register_example =
    rootfs_finddir-fs_register 2 4 48 400 400 two names (16 ∷ 32 ∷ []) (200 ∷ 100 ∷ []) two-Holds
      x-HasString x-HasString (omega arith) (omega arith) (omega arith, (omega arith, tt))
      (omega arith) (omega arith) (omega arith) x_new

rootfs_readdir-Shows_run :
    (s' : RootFs) × (rootfs_readdir 2 3 500 1 (lock_set true two) ≡ some (500, s'))
    × Shows names 500 1 100 two s'
rootfs_readdir-Shows_run =
    rootfs_readdir-Shows 2 3 500 1 two names (16 ∷ 32 ∷ []) (200 ∷ 100 ∷ []) two-Holds true
      (omega arith) (omega arith) (omega arith) (omega arith) (omega arith)
