-- ===== src/Pmm/Init.antt =====
-- `pmm_init`: where the bitmap is put, how large it is, and the state that it starts in.
pub mod Start
use piggy_os.Base.{
  ℕ, zero, suc, ◌+◌, ◌-◌, ◌≤◌, ◌<◌, ◌/◌, ◌*◌, ◌%◌, ◌^◌, ◌≡◌, ◌≢◌, sym, false, Option, none, some,
  List, [], ◌∷◌, arith, ◌==◌, ltb, leb, if◌then◌else◌, length, add32, sub32, mul32,
}
use native.Mathlib.Nat.{div-add-mod'}
use piggy_os.Base.Bits.{bit-zero}
use piggy_os.Base.Count.{count_none}
use piggy_os.Multiboot.{
  Memory, type_of, tag_end, tag_module, tag_basic_meminfo, next_tag, mboot2_find_tag,
}
use piggy_os.Multiboot.Tags.{IsChain, first_of_type, mboot2_find_tag-first}
use piggy_os.Pmm.{Pmm}
use piggy_os.Pmm.Scan.{bit_of}
use piggy_os.Pmm.Valid.{taken, covered, IsValid}

abbrev pub kern_base : ℕ
kern_base = 0xc0000000

-- `align_to` of system.h.
unfoldable pub align_to : ℕ → ℕ → ℕ
align_to n align = if n % align == 0 then n else add32 n (sub32 align (n % align))

-- `MAX(mod->mod_end, bitmap_addr)` at a module tag.
unfoldable pub after_tag : Memory → ℕ → ℕ → ℕ
after_tag mem tag acc =
    if type_of mem tag == tag_module
    then (if ltb acc (mem (add32 tag 12)) then mem (add32 tag 12) else acc)
    else acc

-- The `do … while` loop on `fuel` rounds; `none` where the fuel runs out. The first tag is taken
-- whatever its type is.
pub modules_end : ℕ → Memory → ℕ → ℕ → Option ℕ
modules_end zero mem tag acc = none
modules_end (suc fuel) mem tag acc =
    let rest = modules_end fuel mem (next_tag mem tag) (after_tag mem tag acc) in
    if type_of mem (next_tag mem tag) == tag_end then some (after_tag mem tag acc) else rest

-- `memset` of `size` bytes to 0, on little-endian words.
unfoldable pub zero_bytes : ℕ → (ℕ → ℕ) → ℕ → ℕ
zero_bytes size words i =
    if leb (4 * i + 4) size
    then 0
    else if ltb (4 * i) size
    then words i / 2 ^ (8 * (size - 4 * i)) * 2 ^ (8 * (size - 4 * i))
    else words i

pub data Init : Type 0 where
  done : Pmm → Init
  panic : Init
  out_of_fuel : Init

-- `KERN_BASE + 0x00400000`.
abbrev pub limit : ℕ
limit = 0xc0400000

-- The start of the bitmap, behind the kernel and its modules.
unfoldable pub bitmap_start : ℕ → ℕ → ℕ
bitmap_start kernel_end last = if ltb last kernel_end then kernel_end else last

-- The variables as `pmm_init` leaves them. `ram p` is the word array that stands at address `p`.
unfoldable pub fresh : (ram : ℕ → ℕ → ℕ) → Pmm → (addr size place : ℕ) → Pmm
fresh ram s addr size place = record {
  max_blocks = size / 4096;
  used_blocks = s.used_blocks;
  mem_size = size;
  bitmap_addr = addr;
  bitmap = zero_bytes (size / 4096 / 8) (ram place);
  pmm_bitmap = place;
  pmm_bitmap_size = size / 4096 / 8;
}

-- The part of `pmm_init` behind the tag loop, with the end of the modules and the address that
-- `mboot2_find_tag` returned.
unfoldable pub set_up : (kernel_end : ℕ) → (ram : ℕ → ℕ → ℕ) → Memory → Pmm → ℕ → ℕ → Init
set_up kernel_end ram mem s last meminfo =
    let addr = bitmap_start kernel_end last in
    let size = mul32 (add32 (mem (add32 meminfo 8)) (mem (add32 meminfo 12))) 1024 in
    if ltb limit addr
    then panic
    else done (fresh ram s addr size (align_to (add32 addr kern_base) 4))

abbrev pub with_both : Option ℕ → Option ℕ → (ℕ → ℕ → Init) → Init
with_both none _ k = out_of_fuel
with_both (some a) none k = out_of_fuel
with_both (some a) (some b) k = k a b

unfoldable pub pmm_init : ℕ → (kernel_end : ℕ) → (ram : ℕ → ℕ → ℕ) → Memory → ℕ → Pmm → Init
unfolding set_up modules_end fresh bitmap_start align_to zero_bytes
pmm_init fuel kernel_end ram mem mb2 s =
    with_both (modules_end fuel mem (add32 mb2 8) s.bitmap_addr)
      (mboot2_find_tag fuel mem mb2 tag_basic_meminfo) (set_up kernel_end ram mem s)

-- The guard of `pmm_init` compares a physical address with a virtual bound, so it lets through
-- every kernel and module that ends below it, those past the first 4 MiB of memory included.
pub set_up-no_panic :
    (ram : ℕ → ℕ → ℕ) (mem : Memory) (s : Pmm) (kernel_end last meminfo : ℕ)
    → kernel_end ≤ limit
    → last ≤ limit
    → set_up kernel_end ram mem s last meminfo ≢ panic
unfolding set_up bitmap_start
set_up-no_panic ram mem s kernel_end last meminfo h k = ground arith
