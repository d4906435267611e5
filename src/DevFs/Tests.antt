-- ===== src/DevFs/Tests.antt =====
-- Runs of the device directory with one device.
use piggy_os.Base.{ℕ, ◌≡◌, ◌≢◌, refl, List, [], ◌∷◌, arith, false, some, ◌==◌, if◌then◌else◌}
use piggy_os.Strings as Strings
use piggy_os.Strings.{minus_one}
use piggy_os.Strings.Compare.{HasString}
use piggy_os.DList.{Node, blank_node}
use piggy_os.RootFs.Walk.{lookup}
use piggy_os.DevFs.{DevFs, devfs_register, devfs_finddir}
use piggy_os.DevFs.Devices.{HasDevices, devfs_register-HasDevices, devfs_finddir-lookup}

-- "n" at 100, and "p" at 200.
abbrev bytes : Strings.Memory
bytes p = if p == 100 then 110 else if p == 200 then 112 else 0

abbrev names : ℕ → List ℕ
names v = if v == 100 then 110 ∷ [] else if v == 200 then 112 ∷ [] else []

abbrev cells : ℕ → Node
cells p = if p == 16 then record { prev = 0; next = 0; value = 100 } else blank_node

abbrev one : DevFs
one = record {
  devlist = record { head = 16; tail = 16; size = 1 };
  devfs_dirent = 900;
  devfs_lock = false;
  bytes = bytes;
  cells = record { nodes = cells; freed = [] };
  dirents = λ _. record { flags = 0; inode = 0; offset = 0 };
}

one-HasDevices : HasDevices names one (16 ∷ []) (100 ∷ [])
unfolding lookup
one-HasDevices = record {
  list = record { shape = (refl, omega arith, refl, refl, refl); count = refl; few = omega arith };
  nodes = refl;
  named = (omega arith, (refl, omega arith, refl), tt);
  unique = (refl, tt);
  unlocked = refl;
}

p-HasString : HasString bytes 200 (112 ∷ [])
p-HasString = (refl, omega arith, refl)

devfs_register-HasDevices_run :
    (lookup names (112 ∷ []) (100 ∷ []) ≡ 0
      → (s' : DevFs) × (devfs_register 2 2 32 200 one ≡ some s')
        × HasDevices names s' (32 ∷ 16 ∷ []) (200 ∷ 100 ∷ []))
    × (lookup names (112 ∷ []) (100 ∷ []) ≢ 0 → devfs_register 2 2 32 200 one ≡ some one)
devfs_register-HasDevices_run =
    devfs_register-HasDevices 2 2 32 200 one names (16 ∷ []) (100 ∷ []) one-HasDevices p-HasString
      (omega arith) (omega arith) (omega arith, tt) (omega arith) (omega arith) (omega arith)

devfs_finddir-lookup_run :
    devfs_finddir 2 2 200 one ≡ some (lookup names (112 ∷ []) (100 ∷ []), one)
devfs_finddir-lookup_run =
    devfs_finddir-lookup 2 2 200 one names (112 ∷ []) (16 ∷ []) (100 ∷ []) one-HasDevices
      p-HasString (omega arith) (omega arith)
