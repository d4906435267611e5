-- ===== src/Tar.antt =====
-- kernel/fs/tarfs.c: the archive that holds the first files. An archive is bytes in memory: blocks
-- of 512 bytes, a header with the name at its start and the size in octal digits at byte 124, then
-- the contents of the file. `tarfs_init` and `tarfs_readdir`, which fill in nodes, are not modelled.
pub mod Size
pub mod Read
pub mod Parse
mod Tests
use piggy_os.Base.{
  ℕ, zero, suc, ◌+◌, ◌-◌, ◌*◌, ◌/◌, ◌%◌, ◌^◌, Bool, true, false, Option, none, some, ◌==◌, ltb,
  if◌then◌else◌, add32, sub32, mul32, update,
}
use piggy_os.Strings.{Memory, memcpy}
use piggy_os.DList.{Node, DList}
use piggy_os.DList as Lists
use piggy_os.RootFs.{find_from}

-- A `char` as a `uint32_t`: it is signed.
abbrev pub extended : ℕ → ℕ
extended c = if ltb c 128 then c else c + 0xffffff00

-- The loop of `tar_getsize` with `j` digits left.
pub size_from : (j count size digits : ℕ) → Memory → ℕ
size_from zero count size digits mem = size
size_from (suc j) count size digits mem =
    size_from j (mul32 count 8) (add32 size (mul32 (sub32 (extended (mem (digits + j))) 48) count))
      digits mem

unfoldable pub tar_getsize : (digits : ℕ) → Memory → ℕ
unfolding size_from
tar_getsize digits mem = size_from 11 1 0 digits mem

-- Where the size stands in a header.
abbrev pub size_field : ℕ
size_field = 124

-- The address behind a file of `size` bytes whose header is at `address`.
abbrev pub next_header : (address size : ℕ) → ℕ
next_header address size =
    let behind = add32 address (mul32 (size / 512 + 1) 512) in
    if size % 512 == 0 then behind else add32 behind 512

-- The loop of `tar_parse` on `fuel` rounds: the number of files, and their headers by number. The
-- array has room for 64 of them, and is written without a test.
pub parse_from : (fuel files address end : ℕ) → (ℕ → ℕ) → Memory → Option (ℕ × (ℕ → ℕ))
parse_from zero files address end headers mem = none
parse_from (suc fuel) files address end headers mem =
    let next = next_header address (tar_getsize (address + size_field) mem) in
    let headers' = update headers files address in
    let rest = parse_from fuel (files + 1) next end headers' mem in
    if mem address == 0
    then some (files, headers)
    else if ltb end next
    then some (files, headers')
    else rest

unfoldable pub tar_parse : (fuel address end : ℕ) → (ℕ → ℕ) → Memory → Option (ℕ × (ℕ → ℕ))
unfolding parse_from tar_getsize
tar_parse fuel address end headers mem = parse_from fuel 0 address end headers mem

-- How many bytes are read from a file of `file_size`.
abbrev pub read_size : (offset size file_size : ℕ) → ℕ
read_size offset size file_size =
    if ltb file_size (add32 offset size) then sub32 file_size offset else size

-- The answer, and the memory. `header` is `headers[node->inode]`; the offset has no part in where
-- the bytes are read from.
unfoldable pub tarfs_read : (header offset size buffer file_size : ℕ) → Memory → ℕ × Memory
unfolding memcpy
tarfs_read header offset size buffer file_size mem =
    let n = read_size offset size file_size in
    if ltb file_size offset then (0, mem) else (n, memcpy buffer (add32 header 512) n mem)

-- `nodes_list` is the list that the `inode` of the directory points to.
unfoldable pub tarfs_finddir :
    (rounds fuel name : ℕ) → (nodes_list : DList) → Memory → (ℕ → Node) → Option ℕ
unfolding find_from
tarfs_finddir rounds fuel name nodes_list mem nodes =
    if name == 0 then some 0 else find_from rounds fuel name nodes_list.head mem nodes
