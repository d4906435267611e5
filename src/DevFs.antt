-- ===== src/DevFs.antt =====
-- kernel/fs/devfs.c: the nodes of the device directory, a list of uniquely named nodes. Names, list
-- cells and the entry that `devfs_readdir` fills in are in memory as in `RootFs`.
pub mod Devices
mod Tests
use piggy_os.Base.{
  ℕ, zero, suc, ◌+◌, ◌%◌, ◌^◌, Bool, true, false, Option, none, some, ◌==◌, if◌then◌else◌, add32,
  update, then_with,
}
use piggy_os.Strings as Strings
use piggy_os.Strings.{strcpy}
use piggy_os.DList.{Node, DList, list_insert_front}
use piggy_os.DList as Lists
use piggy_os.RootFs.{Dirent, spin_lock, spin_unlock, find_from}

-- The variables of devfs.c, and what they point to.
pub record DevFs : Type 0 where
  pub devlist : DList
  pub devfs_dirent : ℕ
  pub devfs_lock : Bool
  pub bytes : Strings.Memory
  pub cells : Lists.Memory
  pub dirents : ℕ → Dirent

abbrev pub lock_devices : Bool → DevFs → DevFs
lock_devices held s = record s { devfs_lock = held }

-- The cell that the loop of `devfs_readdir` stops at, `some 0` where it comes to the end.
pub count_from : (fuel index counter p : ℕ) → (ℕ → Node) → Option ℕ
count_from zero index counter p n = none
count_from (suc fuel) index counter p n =
    let rest = count_from fuel index (add32 counter 1) (n p).next n in
    if p == 0 then some 0 else if index == counter then some p else rest

-- The one entry, filled in for a device. Its other fields are left as they are.
abbrev pub described : (rounds index device : ℕ) → DevFs → Option DevFs
described rounds index device s = then_with (strcpy rounds s.devfs_dirent device s.bytes) λ bytes.
    some (record s {
      bytes = bytes;
      dirents =
          update s.dirents s.devfs_dirent (record (s.dirents s.devfs_dirent) { inode = index });
    })

unfoldable pub devfs_readdir : (rounds fuel index : ℕ) → DevFs → Option (ℕ × DevFs)
unfolding count_from
devfs_readdir rounds fuel index s = then_with (spin_lock s.devfs_lock) λ held.
    then_with (count_from fuel index 0 s.devlist.head s.cells.nodes) λ d.
      if d == 0
      then some (0, lock_devices (spin_unlock held) s)
      else (then_with (described rounds index (s.cells.nodes d).value s)
          λ s'. some (s'.devfs_dirent, lock_devices (spin_unlock held) s'))

unfoldable pub devfs_finddir : (rounds fuel name : ℕ) → DevFs → Option (ℕ × DevFs)
unfolding find_from
devfs_finddir rounds fuel name s = then_with (spin_lock s.devfs_lock) λ held.
    then_with (find_from rounds fuel name s.devlist.head s.bytes s.cells.nodes)
      λ result. some (result, lock_devices (spin_unlock held) s)

abbrev pub with_device : (cell device : ℕ) → DevFs → DevFs
with_device cell device s =
    let (list, cells) = list_insert_front cell device s.devlist s.cells in
    record s { devlist = list; cells = cells }

-- `cell` is the address that `kcalloc` returns.
unfoldable pub devfs_register : (rounds fuel cell device : ℕ) → DevFs → Option DevFs
unfolding find_from list_insert_front
devfs_register rounds fuel cell device s = then_with (spin_lock s.devfs_lock) λ held.
    then_with (find_from rounds fuel device s.devlist.head s.bytes s.cells.nodes) λ found.
      if found == 0
      then some (lock_devices (spin_unlock held) (with_device cell device s))
      else some (lock_devices (spin_unlock held) s)
