-- ===== src/Tar/Parse.antt =====
-- `tar_parse` finds the headers of an archive.
use piggy_os.Base.{ℕ, ◌+◌, ◌*◌, ◌/◌, ◌^◌, ◌<◌, ◌≤◌, ◌≡◌, ◌≢◌, arith, List, [], ◌∷◌, update}
use piggy_os.Strings.{Memory}
use piggy_os.Tar.Size.{octal}
use piggy_os.Tar.{next_header}

-- The address behind the file whose header is at `h`: the next multiple of 512 bytes behind its
-- contents, if that is in memory.
pub next_header-blocks :
    (h size : ℕ)
    → h + size + 1024 < 2 ^ 32
    → next_header h size ≡ h + 512 + (size + 511) / 512 * 512
next_header-blocks h size small = ground arith

-- The eleven octal digits of a size, at byte 124 of the header at `h`.
abbrev pub HasDigits : Memory → ℕ → Type 0
HasDigits mem h = (i : ℕ) → i < 11 → (48 ≤ mem (h + 124 + i)) × (mem (h + 124 + i) < 56)

-- The number that they write.
abbrev pub written_size : Memory → ℕ → ℕ
written_size mem h = octal 11 (h + 124) mem

-- Where the next header stands: behind the header's block and as many blocks as hold the contents.
abbrev pub behind : Memory → ℕ → ℕ
behind mem h = h + 512 + (written_size mem h + 511) / 512 * 512

-- From address `a` on stand the headers `hs`, each with a name and its size in octal digits, and each
-- file with its end at or before `end` and in memory; behind the last file stands a byte 0.
abbrev pub IsArchive : Memory → (end a : ℕ) → List ℕ → Type 0
IsArchive mem end a [] = mem a ≡ 0
IsArchive mem end a (h ∷ hs) =
    (a ≡ h)
    × (mem h ≢ 0)
    × HasDigits mem h
    × (h + written_size mem h + 1024 < 2 ^ 32)
    × (behind mem h ≤ end)
    × IsArchive mem end (behind mem h) hs

-- The array with `hs` from number `files` on.
abbrev pub stored : (ℕ → ℕ) → (files : ℕ) → List ℕ → ℕ → ℕ
stored headers files [] = headers
stored headers files (h ∷ hs) = stored (update headers files h) (files + 1) hs
