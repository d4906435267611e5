-- ===== src/Elf/Tests.antt =====
-- A program of one segment, and runs of the loader.
use piggy_os.Base.{ℕ, ◌≡◌, refl, List, [], ◌∷◌, some, ◌==◌, if◌then◌else◌, ltb}
use piggy_os.Strings.{Memory}
use piggy_os.Elf.{
  Image, Segment, fault, load_segment, elf_relocate, relocate_from, elf_check_header, elf_load,
}
use piggy_os.Elf.Placed.{Placed}

-- The program headers begin 52 bytes into the file, and the one that is there asks for the two bytes
-- behind it and two more at 0x400. The version of the format is 2, which is refused.
abbrev file : List (ℕ × ℕ)
file =
    (0, 0x7f)
    ∷ (1, 0x45)
    ∷ (2, 0x4c)
    ∷ (3, 0x46)
    ∷ (4, 1)
    ∷ (5, 1)
    ∷ (6, 2)
    ∷ (16, 2)
    ∷ (18, 3)
    ∷ (28, 52)
    ∷ (42, 32)
    ∷ (44, 1)
    ∷ (52, 1)
    ∷ (56, 84)
    ∷ (61, 4)
    ∷ (68, 2)
    ∷ (72, 4)
    ∷ (84, 7)
    ∷ (85, 8)
    ∷ []

-- The bytes of the file that are not listed are 0.
abbrev byte_in : List (ℕ × ℕ) → ℕ → ℕ
byte_in [] p = 0
byte_in (b ∷ bs) p = if b.0 == p then b.1 else byte_in bs p

abbrev read : Memory → Memory
read mem p = if ltb p 0x100 then byte_in file p else mem p

-- The file is read to 0, and the first page is mapped.
abbrev empty : Image
empty = record { mem = λ p. 9; mapped = λ page. page == 0 }

abbrev program : Image
program = record empty { mem = read empty.mem }

abbrev segment : Segment
segment = record { type = 1; offset = 84; vaddr = 0x400; filesz = 2; memsz = 4 }

-- The same segment with 0x2000 bytes of memory, at a page that is not mapped: the zeros fault.
abbrev large : ℕ → ℕ
large p = if p == 73 then 0x20 else if p == 61 then 0x54 else program.mem p

elf_load_run : elf_load 3 (some (λ m. large)) 0 empty ≡ fault
unfolding elf_load elf_relocate relocate_from elf_check_header load_segment
elf_load_run = refl
