-- ===== src/Tar/Tests.antt =====
-- Runs of the archive.
use piggy_os.Base.{◌%◌, ◌^◌, ◌≡◌, inr, refl, arith, ◌==◌, ltb, if◌then◌else◌}
use piggy_os.Strings.{Memory}
use piggy_os.Tar.{tar_getsize, tarfs_read}
use piggy_os.Tar.Size.{octal, tar_getsize-octal}
use piggy_os.Tar.Read.{Copied, tarfs_read-Copied}

-- The size 17 in octal digits at 124, and a file from 512 on.
abbrev bytes : Memory
bytes p =
    if p == 133
    then 50
    else if p == 134
    then 49
    else if ltb 123 p
    then (if ltb p 135 then 48 else p % 256)
    else 97

tar_getsize-octal_run : tar_getsize 124 bytes ≡ octal 11 124 bytes % 2 ^ 32
tar_getsize-octal_run = tar_getsize-octal 124 bytes (λ i h. ground arith)

seventeen : tar_getsize 124 bytes ≡ 17
unfolding tar_getsize
seventeen = refl

tarfs_read-Copied_example :
    let (n, mem') = tarfs_read 0 10 100 9000 17 bytes in (n ≡ 7) × Copied 0 9000 n bytes mem'
tarfs_read-Copied_example =
    tarfs_read-Copied 0 10 100 9000 17 bytes (omega arith) (omega arith) (omega arith)
      (inr (omega arith))

-- An archive with that one file, and zeros behind it.
abbrev one_file : Memory
one_file p = if ltb p 1024 then bytes p else 0
