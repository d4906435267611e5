-- ===== src/Tar/Read.antt =====
-- `tarfs_read`: what it copies.
use piggy_os.Base.{ℕ, ◌+◌, ◌-◌, ◌^◌, ◌<◌, ◌≤◌, ◌≡◌, ◌⊎◌, arith, ltb, add32, min, if_false}
use piggy_os.Strings.{Memory, memcpy}
use piggy_os.Strings.Copy.{memcpy-copies}
use piggy_os.Tar.{read_size, tarfs_read}

-- `n` bytes of the buffer are the first ones of the file behind the header, and no other byte
-- has changed.
pub record Copied (header buffer n : ℕ) (mem mem' : Memory) : Type 0 where
  pub bytes : (i : ℕ) → i < n → mem' (buffer + i) ≡ mem (header + 512 + i)
  pub others : (x : ℕ) → (x < buffer) ⊎ (buffer + n ≤ x) → mem' x ≡ mem x

read_size-min :
    (offset size file_size : ℕ)
    → offset ≤ file_size
    → file_size < 2 ^ 32
    → offset + size < 2 ^ 32
    → read_size offset size file_size ≡ min size (file_size - offset)
read_size-min offset size file_size h small fits = ground arith

-- `tarfs_read` at an offset inside the file answers the number of bytes from there to the end, or
-- the number asked for if that is smaller, but copies that many bytes from the start of the file,
-- whatever the offset is. The buffer lies apart from the file.
pub tarfs_read-Copied :
    (header offset size buffer file_size : ℕ) (mem : Memory)
    → offset ≤ file_size
    → header + 512 + file_size < 2 ^ 32
    → offset + size < 2 ^ 32
    → (buffer ≤ header + 512) ⊎ (header + 512 + file_size ≤ buffer)
    → let (n, mem') = tarfs_read header offset size buffer file_size mem in
      (n ≡ min size (file_size - offset)) × Copied header buffer n mem mem'
unfolding tarfs_read
tarfs_read-Copied header offset size buffer file_size mem h small fits apart =
    let n = read_size offset size file_size in
    let count = read_size-min offset size file_size h (omega arith) fits in
    let from : add32 header 512 ≡ header + 512 = omega arith in
    let (bytes, others) = memcpy-copies buffer (header + 512) n mem (omega (arith, count)) in
    let none_read : ℕ × Memory = (0, mem) in
    let some_read : ℕ × Memory = (n, memcpy buffer (add32 header 512) n mem) in
    rw (if_false (ltb file_size offset) none_read some_read (ground arith))
      (rw from (count, record { bytes = bytes; others = others }))
