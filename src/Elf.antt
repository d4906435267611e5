-- ===== src/Elf.antt =====
-- kernel/sys/elf.c: loading a program. `mem p` is the byte at the virtual address `p`; of a page that
-- is not mapped, the byte in the block that it will be mapped to. Touching such a page ends in the
-- panic of the page fault's handler. What is printed is left out.
-- What `read_fs` does to memory is the parameter `read`, and where the buffer stands is `buffer`.
pub mod Placed
pub mod Load
mod Tests
use piggy_os.Base.{
  ℕ, zero, suc, ◌+◌, ◌-◌, ◌*◌, ◌/◌, ◌%◌, ◌^◌, Bool, true, false, not, ◌&&◌, ◌||◌, Option, none,
  some, List, ◌∷◌, ◌==◌, ltb, leb, if◌then◌else◌, add32, sub32, u8, u32,
}
use piggy_os.Strings.{Memory, word_at, memcpy, memset}

-- Memory, and whether the page of each number is mapped.
pub record Image : Type 0 where
  pub mem : Memory
  pub mapped : ℕ → Bool

-- The `uint16_t` at an address.
abbrev pub half_at : Memory → ℕ → ℕ
half_at mem p = u8 (mem p) + u8 (mem (p + 1)) * 2 ^ 8

-- The magic number, 32-bit code, low bytes first, version 1, for the 80386, and to be linked or run.
unfoldable pub elf_check_header : (header : ℕ) → Memory → ℕ
elf_check_header header mem =
    let e_type = half_at mem (header + 16) in
    if not (
      mem header == 0x7f
      && mem (header + 1) == 0x45
      && mem (header + 2) == 0x4c
      && mem (header + 3) == 0x46)
    then 0
    else if not (mem (header + 4) == 1)
    then 0
    else if not (mem (header + 5) == 1)
    then 0
    else if not (mem (header + 6) == 1)
    then 0
    else if not (half_at mem (header + 18) == 3)
    then 0
    else if not (e_type == 1) && not (e_type == 2)
    then 0
    else 2 ^ 8 - 1

-- `e_phnum`
abbrev pub phnum : (header : ℕ) → Memory → ℕ
phnum header mem = half_at mem (header + 44)

abbrev pub elf_get_program_header : (header num : ℕ) → Memory → ℕ
elf_get_program_header header num mem =
    u32 (header + word_at mem (header + 28) + num * half_at mem (header + 42))

abbrev pub elf_get_section_header : (header num : ℕ) → Memory → ℕ
elf_get_section_header header num mem =
    u32 (header + word_at mem (header + 32) + num * half_at mem (header + 46))

-- The fields of a program header that the code reads.
pub record Segment : Type 0 where
  pub type : ℕ
  pub offset : ℕ
  pub vaddr : ℕ
  pub filesz : ℕ
  pub memsz : ℕ

abbrev pub segment_at : ℕ → Memory → Segment
segment_at p mem = record {
  type = word_at mem p;
  offset = word_at mem (p + 4);
  vaddr = word_at mem (p + 8);
  filesz = word_at mem (p + 16);
  memsz = word_at mem (p + 20);
}

-- `KERN_BASE`
abbrev pub kern_base : ℕ
kern_base = 0xc0000000

-- The segment does not hold what the file has of it, or reaches into the kernel.
abbrev pub refused : Segment → Bool
refused s = ltb s.memsz s.filesz || leb kern_base (add32 s.vaddr s.memsz)

-- All of the `n` bytes from `p` on are in mapped pages.
abbrev pub all_mapped : (n p : ℕ) → (ℕ → Bool) → Bool
all_mapped zero p mapped = true
all_mapped (suc n) p mapped = mapped (p / 4096) && all_mapped n (p + 1) mapped

-- `allocate_region` maps the pages from that of `start_va` to that of `end_va`.
abbrev pub map_region : (start_va end_va : ℕ) → (ℕ → Bool) → ℕ → Bool
map_region start_va end_va mapped page =
    mapped page || (leb (start_va / 4096) page && leb page (end_va / 4096))

-- What the loader comes to. A pointer past the last address is undefined in C; no page there is
-- mapped, so it faults here.
pub data Outcome : Type 0 where
  finished : (code : ℕ) → Image → Outcome
  fault : Outcome
  out_of_fuel : Outcome

-- `memset` of the bytes behind those of the file, for the header `s` as it is read then.
abbrev pub clear_rest : Segment → Image → Option Image
clear_rest s im =
    let rest = sub32 s.memsz s.filesz in
    if ltb 0 rest
    then (if all_mapped rest (s.vaddr + s.filesz) im.mapped
        then some (record im { mem = memset (s.vaddr + s.filesz) 0 rest im.mem })
        else none)
    else some im

-- The segment of the program header at `ph`, which is read again behind `memcpy`; `none` at a fault.
unfoldable pub load_segment : (offset ph : ℕ) → Image → Option Image
unfolding memcpy memset
load_segment offset ph im =
    let s = segment_at ph im.mem in
    let mapped = map_region s.vaddr (add32 s.vaddr s.filesz) im.mapped in
    let source = offset + s.offset in
    let mem = memcpy s.vaddr source s.filesz im.mem in
    if all_mapped s.filesz source mapped && all_mapped s.filesz s.vaddr mapped
    then clear_rest (segment_at ph mem) (record { mem = mem; mapped = mapped })
    else none

-- The `int` −1.
abbrev pub elf_failed : ℕ
elf_failed = 2 ^ 32 - 1

abbrev pub unless_fault : Option Image → (Image → Outcome) → Outcome
unless_fault none k = fault
unless_fault (some im) k = k im

-- The loop from program header `i` on, on `fuel` rounds. The header is read anew in each round.
unfoldable pub relocate_from : ℕ → (i header offset : ℕ) → Image → Outcome
unfolding load_segment
relocate_from zero i header offset im = out_of_fuel
relocate_from (suc fuel) i header offset im =
    let ph = elf_get_program_header header i im.mem in
    let s = segment_at ph im.mem in
    let loaded =
      unless_fault (load_segment offset ph im) (relocate_from fuel (i + 1) header offset) in
    let skipped = relocate_from fuel (i + 1) header offset im in
    if ltb i (phnum header im.mem)
    then (if s.type == 1 then (if refused s then finished elf_failed im else loaded) else skipped)
    else finished 0 im

unfoldable pub elf_relocate : ℕ → (header offset : ℕ) → Image → Outcome
unfolding relocate_from
elf_relocate fuel header offset im = relocate_from fuel 0 header offset im

-- The code goes on behind a header that is refused.
abbrev pub answer : (checked : ℕ) → Outcome → Outcome
answer checked fault = fault
answer checked out_of_fuel = out_of_fuel
answer checked (finished code im) =
    finished (if checked == 0 then elf_failed else if code == 0 then 0 else elf_failed) im

-- `none` of a node is NULL; of another, what reading it into the buffer does.
unfoldable pub elf_load : ℕ → (read : Option (Memory → Memory)) → (buffer : ℕ) → Image → Outcome
unfolding elf_relocate elf_check_header
elf_load fuel none buffer im = finished elf_failed im
elf_load fuel (some read) buffer im =
    let im' = record im { mem = read im.mem } in
    answer (elf_check_header buffer im'.mem) (elf_relocate fuel buffer buffer im')
