-- ===== src/RootFs/Entries.antt =====
-- `rootfs_readdir`.
use piggy_os.Base.{
  ℕ, zero, suc, ◌+◌, ◌<◌, ◌≤◌, ◌≡◌, ◌≢◌, refl, sym, ap, ◌∙◌, List, [], ◌∷◌, arith, Bool, false,
  some, ◌==◌, leb, length, if_true, if_false, then_with, ne→==, update, update_self, inr,
}
use piggy_os.Strings as Strings
use piggy_os.Strings.{strcpy}
use piggy_os.Strings.Compare.{HasString}
use piggy_os.Strings.Copy.{strcpy-HasString}
use piggy_os.DList.{Node}
use piggy_os.DList.Linked.{values}
use piggy_os.DList.Search.{list_get_node_by_index-element, element}
use piggy_os.RootFs.{RootFs, Dirent, rootfs_readdir, lock_set, entry_for}
use piggy_os.RootFs.Walk.{Named, Holds}

-- The entry `e`, with its name at `d`, for the node `v` at an index.
pub record Shows (names : ℕ → List ℕ) (d index v : ℕ) (s s' : RootFs) : Type 0 where
  pub name : HasString s'.bytes d (names v)
  pub inode : (s'.dirents d).inode ≡ v
  pub offset : (s'.dirents d).offset ≡ index
  pub flags : (s'.dirents d).flags ≡ s.node_flags v
  pub unlocked : s'.rootfs_lock ≡ false

length-values : (n : ℕ → Node) (ps : List ℕ) → length (values n ps) ≡ length ps
length-values n [] = refl
length-values n (p ∷ ps) = ap suc (length-values n ps)

values-element :
    (n : ℕ → Node) (index : ℕ) (ps : List ℕ)
    → index < length ps
    → (n (element index ps)).value ≡ element index (values n ps)
values-element n index [] h = absurd (omega arith)
values-element n zero (p ∷ ps) h = refl
values-element n (suc index) (p ∷ ps) h = values-element n index ps (omega arith)

Named-element :
    (mem : Strings.Memory) (names : ℕ → List ℕ) (index : ℕ) (vs : List ℕ)
    → index < length vs
    → Named mem names vs
    → (element index vs ≢ 0) × HasString mem (element index vs) (names (element index vs))
Named-element mem names index [] h w = absurd (omega arith)
Named-element mem names zero (v ∷ vs) h w = (w.0, w.1)
Named-element mem names (suc index) (v ∷ vs) h w =
    Named-element mem names index vs (omega arith) w.2

-- `rootfs_readdir` of an index below the number of nodes fills the entry in, from the node at that
-- index, the last one registered first, given memory for it apart from the node's name. It leaves
-- the lock released, also if it was held.
pub rootfs_readdir-Shows :
    (rounds fuel d index : ℕ) (s : RootFs) (names : ℕ → List ℕ) (ps vs : List ℕ)
    → Holds names s ps vs
    → (held : Bool) → index < length vs
    → length ps < fuel
    → d ≢ 0
    → length (names (element index vs)) < rounds
    → (element index vs + (length (names (element index vs)) + 1) ≤ d)
    → (s' : RootFs) × (rootfs_readdir rounds fuel d index (lock_set held s) ≡ some (d, s'))
      × Shows names d index (element index vs) s s'
unfolding rootfs_readdir
rootfs_readdir-Shows rounds fuel d index s names ps vs k held h f real r apart =
    let v = element index vs in
    let here = lock_set held s in
    let size : length ps ≡ length vs = sym (length-values s.cells.nodes ps) ∙ ap length k.nodes in
    let inside : index < length ps = omega arith in
    let (some_node, name) = Named-element s.bytes names index vs h k.named in
    let value : (s.cells.nodes (element index ps)).value ≡ v =
      values-element s.cells.nodes index ps inside ∙ ap (element index) k.nodes in
    let (bytes, run, copied) = strcpy-HasString rounds d v s.bytes (names v) name r (inr apart) in
    let entry : Dirent = record { flags = s.node_flags v; inode = v; offset = index } in
    let s' = record s { rootfs_lock = false; bytes = bytes; dirents = update s.dirents d entry } in
    (
      s',
      if_false (leb s.root_files index) _ _ (ground (arith, k.counted))
          ∙ ap (λ o. then_with o λ e. entry_for rounds d index (s.cells.nodes e).value here)
              (list_get_node_by_index-element fuel index s.root_nodes s.cells ps k.list f)
          ∙ ap (λ rnode. entry_for rounds d index rnode here) value
          ∙ if_false (v == 0) _ _ (ne→== v 0 some_node)
          ∙ if_false (d == 0) _ _ (ne→== d 0 real)
          ∙ ap
              (λ o.
                then_with
                  (then_with o
                    λ b. some (record here { bytes = b; dirents = update s.dirents d entry }))
                  λ t. some (d, lock_set false t))
              run,
      record {
        name = copied;
        inode = ap (λ (e : Dirent). e.inode) (update_self s.dirents d entry);
        offset = ap (λ (e : Dirent). e.offset) (update_self s.dirents d entry);
        flags = ap (λ (e : Dirent). e.flags) (update_self s.dirents d entry);
        unlocked = refl;
      },
    )

-- Behind the last node, `rootfs_readdir` answers NULL.
pub rootfs_readdir-end :
    (rounds fuel d index : ℕ) (s : RootFs)
    → s.root_files ≤ index
    → rootfs_readdir rounds fuel d index s ≡ some (0, s)
unfolding rootfs_readdir
rootfs_readdir-end rounds fuel d index s h = if_true (leb s.root_files index) _ _ (ground arith)
