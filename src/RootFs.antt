-- ===== src/RootFs.antt =====
-- kernel/fs/rootfs.c: the nodes of the root directory, a list of uniquely named nodes.
-- The name of a node is its first field, so its bytes stand at the address of the node. Nodes, list
-- cells and directory entries do not overlap.
pub mod Walk
pub mod Register
pub mod Entries
mod Tests
use piggy_os.Base.{
  ℕ, zero, suc, ◌+◌, ◌%◌, ◌^◌, Bool, true, false, Option, none, some, ◌==◌, leb, if◌then◌else◌,
  add32, update, then_with,
}
use piggy_os.Strings as Strings
use piggy_os.Strings.{strcmp, strcpy}
use piggy_os.DList.{Node, DList, list_insert_front}
use piggy_os.DList as Lists
use piggy_os.DList.Search.{list_get_node_by_index}

-- `struct dirent` without its name, whose bytes stand at its address.
pub record Dirent : Type 0 where
  pub flags : ℕ
  pub inode : ℕ
  pub offset : ℕ

-- The variables of rootfs.c and what they point to: the bytes of names, the cells of lists, the
-- directory entries, and the field `flags` of nodes.
pub record RootFs : Type 0 where
  pub root_nodes : DList
  pub rootfs_lock : Bool
  pub root_files : ℕ
  pub bytes : Strings.Memory
  pub cells : Lists.Memory
  pub dirents : ℕ → Dirent
  pub node_flags : ℕ → ℕ

-- `spin_lock` and `spin_unlock` of kernel/sys/spinlock.c, on one processor: `none` where the lock
-- is held, since nobody else runs who could release it.
abbrev pub spin_lock : Bool → Option Bool
spin_lock false = some true
spin_lock true = none

abbrev pub spin_unlock : Bool → Bool
spin_unlock held = false

-- What a comparison makes of the node `v`: an answer, or the rest of the walk.
abbrev pub if_equal : Option ℕ → ℕ → Option ℕ → Option ℕ
if_equal none v rest = none
if_equal (some result) v rest = if result == 0 then some v else rest

-- `foreach` over the cells from `p` on, to the first node with the name at `name`; `some 0` for
-- NULL, `none` where the rounds of a loop run out.
unfoldable pub find_from : (rounds fuel name p : ℕ) → Strings.Memory → (ℕ → Node) → Option ℕ
find_from rounds zero name p mem n = none
find_from rounds (suc fuel) name p mem n =
    let rest = find_from rounds fuel name (n p).next mem n in
    if p == 0 then some 0 else if_equal (strcmp rounds name (n p).value mem) (n p).value rest

abbrev pub lock_set : Bool → RootFs → RootFs
lock_set held s = record s { rootfs_lock = held }

unfoldable pub rootfs_finddir : (rounds fuel name : ℕ) → RootFs → Option (ℕ × RootFs)
unfolding find_from
rootfs_finddir rounds fuel name s = then_with (spin_lock s.rootfs_lock) λ held.
    then_with (find_from rounds fuel name s.root_nodes.head s.bytes s.cells.nodes)
      λ result. some (result, lock_set (spin_unlock held) s)

-- A new node in front of the others. `cell` is the address that `kcalloc` returns.
abbrev pub added : (cell node : ℕ) → RootFs → RootFs
added cell node s =
    let (list, cells) = list_insert_front cell node s.root_nodes s.cells in
    record s { root_nodes = list; cells = cells; root_files = add32 s.root_files 1 }

unfoldable pub fs_register : (rounds fuel cell node : ℕ) → RootFs → Option RootFs
unfolding find_from list_insert_front
fs_register rounds fuel cell node s = then_with (spin_lock s.rootfs_lock) λ held.
    then_with (find_from rounds fuel node s.root_nodes.head s.bytes s.cells.nodes) λ found.
      if found == 0
      then some (lock_set (spin_unlock held) (added cell node s))
      else some (lock_set (spin_unlock held) s)

-- The entry at address `d` for the node `rnode`.
abbrev pub filled : (rounds d index rnode : ℕ) → RootFs → Option RootFs
filled rounds d index rnode s = then_with (strcpy rounds d rnode s.bytes) λ bytes. some (record s {
  bytes = bytes;
  dirents =
      update s.dirents d (record { flags = s.node_flags rnode; inode = rnode; offset = index });
})

-- `rootfs_readdir` behind the search. `d` is the address that `kmalloc` returns, 0 if there is no
-- memory. The lock is released without having been taken.
abbrev pub entry_for : (rounds d index rnode : ℕ) → RootFs → Option (ℕ × RootFs)
entry_for rounds d index rnode s =
    if rnode == 0
    then some (0, lock_set (spin_unlock s.rootfs_lock) s)
    else if d == 0
    then some (0, s)
    else (then_with (filled rounds d index rnode s)
        λ s'. some (d, lock_set (spin_unlock s'.rootfs_lock) s'))

unfoldable pub rootfs_readdir : (rounds fuel d index : ℕ) → RootFs → Option (ℕ × RootFs)
unfolding list_get_node_by_index
rootfs_readdir rounds fuel d index s =
    if leb s.root_files index
    then some (0, s)
    else (then_with (list_get_node_by_index fuel index s.root_nodes s.cells)
        λ entry. entry_for rounds d index (s.cells.nodes entry).value s)
