-- ===== src/Multiboot.antt =====
-- kernel/multiboot2.c and the tag loops of kernel/memory/pmm.c and kernel/kernel.c: the walk over
-- the tags that the boot loader leaves in memory.
pub mod Tags
mod Tests
use piggy_os.Base.{
  ℕ, zero, suc, ◌+◌, ◌≤◌, ◌^◌, bit_and, Bool, true, false, Option, none, some, ◌==◌, if◌then◌else◌,
  add32,
}

-- The 32-bit word at each address.
abbrev pub Memory : Type 0
Memory = ℕ → ℕ

abbrev pub tag_end : ℕ
tag_end = 0

abbrev pub tag_module : ℕ
tag_module = 3

abbrev pub tag_basic_meminfo : ℕ
tag_basic_meminfo = 4

-- `tag->type`, `tag->size`, and the tag behind it: `tag + ((tag->size + 7) & ~7)`.
abbrev pub type_of : Memory → ℕ → ℕ
type_of mem tag = mem tag

abbrev pub size_of : Memory → ℕ → ℕ
size_of mem tag = mem (add32 tag 4)

unfoldable pub next_tag : Memory → ℕ → ℕ
next_tag mem tag = add32 tag (bit_and (add32 (size_of mem tag) 7) 0xfffffff8)

-- The loop of `mboot2_find_tag` on `fuel` rounds; `none` where the fuel runs out, `some 0` for NULL.
pub find_from : ℕ → Memory → ℕ → ℕ → Option ℕ
find_from zero mem tag wanted = none
find_from (suc fuel) mem tag wanted =
    let rest = find_from fuel mem (next_tag mem tag) wanted in
    if type_of mem tag == wanted
    then some tag
    else if type_of mem tag == tag_end
    then some 0
    else rest

-- The tags begin 8 bytes into the structure.
unfoldable pub mboot2_find_tag : ℕ → Memory → ℕ → ℕ → Option ℕ
unfolding find_from
mboot2_find_tag fuel mem mb2 wanted = find_from fuel mem (add32 mb2 8) wanted
