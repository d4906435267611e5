-- ===== src/Pmm/Valid.antt =====
-- The invariant of the physical memory manager, and what writing one bit of the bitmap does.
use piggy_os.Base.{
  ℕ, ◌-◌, ◌*◌, ◌/◌, ◌%◌, ◌^◌, ◌≤◌, ◌<◌, ◌≡◌, bit_and, bit_or, Bool, true, false, not, arith, ◌==◌,
  ◌≢◌, update,
}
use piggy_os.Base.Bits.{bit-set, bit-clear, bit_or-lt, bit_and-lt, two_pow-lt, test_bit}
use piggy_os.Base.Count.{count}
use piggy_os.Pmm.{Pmm, bitmap_test}
use piggy_os.Pmm.Scan.{bit_of}

-- Whether block `b` is marked as used.
abbrev pub taken : Pmm → ℕ → Bool
taken s b = bit_of s.bitmap b

-- The blocks that `first_free_block` looks at: those of the whole words of the bitmap.
abbrev pub covered : Pmm → ℕ
covered s = s.max_blocks / 32 * 32

pub record IsValid (s : Pmm) : Type 0 where
  pub words : (i : ℕ) → s.bitmap i < 2 ^ 32
  pub few : s.max_blocks ≤ 2 ^ 20
  pub counted : s.used_blocks ≡ count (taken s) (covered s)

module _ (words : ℕ → ℕ) (b : ℕ) where
  abbrev pub set_word : ℕ → ℕ
  set_word = update words (b / 32) (bit_or (words (b / 32)) (2 ^ (b % 32)))

  abbrev pub clear_word : ℕ → ℕ
  clear_word = update words (b / 32) (bit_and (words (b / 32)) (2 ^ 32 - 1 - 2 ^ (b % 32)))

  pub set_word_self : bit_of set_word b ≡ true
  set_word_self = ground (arith, bit-set (words (b / 32)) (b % 32) (b % 32))

  pub set_word_other : (k : ℕ) → b ≢ k → bit_of set_word k ≡ bit_of words k
  set_word_other k ne = ground (arith, bit-set (words (b / 32)) (b % 32) (k % 32))

  pub clear_word_self : bit_of clear_word b ≡ false
  clear_word_self =
      ground (arith, bit-clear 32 (words (b / 32)) (b % 32) (b % 32) (omega arith) (omega arith))

  pub clear_word_other : (k : ℕ) → b ≢ k → bit_of clear_word k ≡ bit_of words k
  clear_word_other k ne =
      ground (arith, bit-clear 32 (words (b / 32)) (b % 32) (k % 32) (omega arith) (omega arith))

  pub set_word-lt : ((i : ℕ) → words i < 2 ^ 32) → (i : ℕ) → set_word i < 2 ^ 32
  set_word-lt h i = ground (
    arith,
    h i,
    bit_or-lt 32 (words (b / 32)) (2 ^ (b % 32)) (h (b / 32))
        (two_pow-lt (b % 32) 32 (omega arith)),
  )

  pub clear_word-lt : ((i : ℕ) → words i < 2 ^ 32) → (i : ℕ) → clear_word i < 2 ^ 32
  clear_word-lt h i =
      ground (arith, h i, bit_and-lt 32 (words (b / 32)) (2 ^ 32 - 1 - 2 ^ (b % 32)) (h (b / 32)))

-- `pmm_bitmap_test` is nonzero exactly if the block is marked.
pub bitmap_test-taken : (b : ℕ) (s : Pmm) → (bitmap_test b s == 0) ≡ not (taken s b)
unfolding bitmap_test
bitmap_test-taken b s = test_bit (s.bitmap (b / 32)) (b % 32)
