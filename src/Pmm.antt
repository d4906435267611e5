-- ===== src/Pmm.antt =====
-- kernel/memory/pmm.c: the physical memory manager, a bitmap with one bit for each 4 KiB block.
-- The parent holds the state and the functions; `Pmm.Scan`, `Pmm.Alloc` and `Pmm.Free` prove what
-- they do. The messages of `klog` are not modelled.
pub mod Scan
pub mod Valid
pub mod Alloc
pub mod Free
pub mod Init
pub mod FirstBlocks
mod Tests
use piggy_os.Base.{
  ℕ, zero, suc, ◌+◌, ◌-◌, ◌*◌, ◌/◌, ◌%◌, ◌^◌, bit_and, bit_or, Bool, true, false, Option, none,
  some, ◌==◌, if◌then◌else◌, add32, sub32, mul32, update,
}
use piggy_os.Base.Bits.{bit}

-- The file's variables. `bitmap i` is the 32-bit word of memory at `pmm_bitmap + i`; the bitmap
-- proper is the first `pmm_bitmap_size` bytes of it.
pub record Pmm : Type 0 where
  pub max_blocks : ℕ
  pub used_blocks : ℕ
  pub mem_size : ℕ
  pub bitmap_addr : ℕ
  pub bitmap : ℕ → ℕ
  pub pmm_bitmap : ℕ
  pub pmm_bitmap_size : ℕ

abbrev pub block_size : ℕ
block_size = 4096

unfoldable pub bitmap_set : ℕ → Pmm → Pmm
bitmap_set b s = record s {
  bitmap = update s.bitmap (b / 32) (bit_or (s.bitmap (b / 32)) (2 ^ (b % 32)));
  used_blocks = add32 s.used_blocks 1;
}

-- `~(1 << k)` is `2 ^ 32 - 1 - 2 ^ k`.
unfoldable pub bitmap_unset : ℕ → Pmm → Pmm
bitmap_unset b s = record s {
  bitmap = update s.bitmap (b / 32) (bit_and (s.bitmap (b / 32)) (2 ^ 32 - 1 - 2 ^ (b % 32)));
  used_blocks = sub32 s.used_blocks 1;
}

unfoldable pub bitmap_test : ℕ → Pmm → ℕ
bitmap_test b s = bit_and (s.bitmap (b / 32)) (2 ^ (b % 32))

-- The inner loop of `first_free_block`, with `rounds` rounds left from bit `j` on.
pub scan_bits : ℕ → ℕ → ℕ → Option ℕ
scan_bits zero w j = none
scan_bits (suc rounds) w j = elim (bit_and w (2 ^ j) == 0) [
  | true ↦ some j
  | false ↦ scan_bits rounds w (suc j)
]

-- The outer loop, with `rounds` rounds left from word `i` on; `none` where it falls through.
pub scan_words : ℕ → (ℕ → ℕ) → ℕ → Option ℕ
scan_words zero words i = none
scan_words (suc rounds) words i = elim (words i == 0xffffffff) [
  | true ↦ scan_words rounds words (suc i)
  | false ↦ elim (scan_bits 32 (words i) 0) [
    | some j ↦ some (add32 (i * 32) j)
    | none ↦ scan_words rounds words (suc i)
  ]
]

-- The answer of the search, and the `return 0` behind the loops.
abbrev pub or_zero : Option ℕ → ℕ
or_zero none = 0
or_zero (some b) = b

unfoldable pub first_free_block : Pmm → ℕ
unfolding scan_bits scan_words
first_free_block s = or_zero (scan_words (s.max_blocks / 32) s.bitmap 0)

-- The difference is unsigned, so `<= 0` holds only where it is 0.
unfoldable pub alloc_block : Pmm → ℕ × Pmm
unfolding bitmap_set first_free_block
alloc_block s =
    if sub32 s.max_blocks s.used_blocks == 0
    then (0, s)
    else (mul32 (first_free_block s) block_size, bitmap_set (first_free_block s) s)

unfoldable pub free_block : ℕ → Pmm → Pmm
unfolding bitmap_unset
free_block addr s = bitmap_unset (addr / block_size) s
