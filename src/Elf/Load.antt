-- ===== src/Elf/Load.antt =====
-- `elf_load` of a program with one segment.
use piggy_os.Base.{ℕ, ◌+◌, ◌-◌, ◌*◌, ◌%◌, ◌^◌, ◌<◌, ◌≤◌, ◌≡◌, ◌⊎◌, Bool}
use piggy_os.Strings.{Memory, word_at}
use piggy_os.Elf.{Segment}
use piggy_os.Elf.Placed.{Placed, Loadable}

-- The 16-bit number of two bytes.
abbrev pub two_bytes : Memory → ℕ → ℕ
two_bytes mem p = mem p % 256 + mem (p + 1) % 256 * 256

-- The identification of a 32-bit file of version 1 with the low bytes first, for the 80386, and a
-- type that is 1 or 2.
abbrev pub IsElf : (header : ℕ) → Memory → Type 0
IsElf header mem =
    (mem header ≡ 0x7f)
    × (mem (header + 1) ≡ 0x45)
    × (mem (header + 2) ≡ 0x4c)
    × (mem (header + 3) ≡ 0x46)
    × (mem (header + 4) ≡ 1)
    × (mem (header + 5) ≡ 1)
    × (mem (header + 6) ≡ 1)
    × (two_bytes mem (header + 18) ≡ 3)
    × ((two_bytes mem (header + 16) ≡ 1) ⊎ (two_bytes mem (header + 16) ≡ 2))

-- What `elf_load` answers where the segment is loaded.
pub data Verdict (header : ℕ) (mem : Memory) : (code : ℕ) → Type 0 where
  fine : IsElf header mem → Verdict header mem 0
  wrong : ¬ IsElf header mem → Verdict header mem (2 ^ 32 - 1)

-- The file at `b` has one program header, which the processor can read, for the segment `s`, and that
-- can be loaded apart from the header of the file.
pub record OneSegment (b : ℕ) (mem : Memory) (mapped : ℕ → Bool) (s : Segment) : Type 0 where
  pub count : two_bytes mem (b + 44) ≡ 1
  pub in_memory : b + word_at mem (b + 28) < 2 ^ 32
  pub type : word_at mem (b + word_at mem (b + 28)) ≡ 1
  pub offset : word_at mem (b + word_at mem (b + 28) + 4) ≡ s.offset
  pub vaddr : word_at mem (b + word_at mem (b + 28) + 8) ≡ s.vaddr
  pub filesz : word_at mem (b + word_at mem (b + 28) + 16) ≡ s.filesz
  pub memsz : word_at mem (b + word_at mem (b + 28) + 20) ≡ s.memsz
  pub loads : s.type ≡ 1
  pub loadable : Loadable s (b + s.offset) (b + word_at mem (b + 28)) mapped
  pub apart : (b + 52 ≤ s.vaddr) ⊎ (s.vaddr + s.memsz ≤ b)
