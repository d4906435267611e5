-- ===== src/Pmm/Free.antt =====
-- `pmm_free_block`, and its round trip with `pmm_alloc_block`.
use piggy_os.Base.{
  ℕ, ◌+◌, ◌-◌, ◌/◌, ◌%◌, ◌^◌, ◌<◌, ◌≡◌, sym, true, fun_ext, false, arith, ◌==◌, ◌≢◌, bit_and,
  bit_or, add32, sub32, mul32,
}
use piggy_os.Base.Bits.{
  bit, eq_of_bits, bit_lt, bit_and-lt, bit_or-lt, two_pow-lt, bit-clear, bit-set,
}
use piggy_os.Base.Count.{count, count_turn, count-le}
use piggy_os.Pmm.{Pmm, bitmap_set, bitmap_unset, first_free_block, alloc_block, free_block}
use piggy_os.Pmm.Scan.{bit_of}
use piggy_os.Pmm.Valid.{
  taken, covered, IsValid, clear_word, set_word, clear_word_self, clear_word_other, clear_word-lt,
}
use piggy_os.Pmm.Alloc.{first_free_block_lem, covered-le}

-- `s'` is `s` with the block `b` given back.
pub record Gave (s : Pmm) (b : ℕ) (s' : Pmm) : Type 0 where
  pub was_taken : taken s b ≡ true
  pub free : taken s' b ≡ false
  pub others : (k : ℕ) → b ≢ k → taken s' k ≡ taken s k
  pub counted : s'.used_blocks + 1 ≡ s.used_blocks

-- `pmm_free_block` of any address in a used block gives back exactly that block, and keeps the
-- invariant.
pub free_block-Gave :
    (addr : ℕ) (s : Pmm)
    → IsValid s
    → addr / 4096 < covered s
    → taken s (addr / 4096) ≡ true
    → Gave s (addr / 4096) (free_block addr s) × IsValid (free_block addr s)
unfolding free_block bitmap_unset
free_block-Gave addr s v inside used = (
  record {
    was_taken = used;
    free = clear_word_self s.bitmap b;
    others = clear_word_other s.bitmap b;
    counted = omega (arith, exact, fewer);
  },
  record {
    words = clear_word-lt s.bitmap b v.words;
    few = v.few;
    counted = omega (arith, exact, fewer, v.counted);
  },
)
  where
    b : ℕ
    b = addr / 4096

    fewer : count (taken s) (covered s) ≡ 1 + count (bit_of (clear_word s.bitmap b)) (covered s)
    fewer =
        count_turn (bit_of (clear_word s.bitmap b)) (taken s) b (covered s)
          (λ k ne. sym (clear_word_other s.bitmap b k ne)) (clear_word_self s.bitmap b) used inside

    exact : sub32 s.used_blocks 1 + 1 ≡ s.used_blocks
    exact = omega (arith, fewer, v.counted, v.few, count-le (taken s) (covered s))

-- Clearing a bit that was set in a word where it was clear gives the word back.
clear_set_word :
    (w j : ℕ)
    → w < 2 ^ 32
    → j < 32
    → bit w j ≡ 0
    → bit_and (bit_or w (2 ^ j)) (2 ^ 32 - 1 - 2 ^ j) ≡ w
clear_set_word w j small inside clear =
    eq_of_bits 32 _ w (bit_and-lt 32 _ _ (bit_or-lt 32 w (2 ^ j) small (two_pow-lt j 32 inside)))
      small λ k lt. ground (arith, bit-clear 32 (bit_or w (2 ^ j)) j k inside lt, bit-set w j k)

bitmap_unset-bitmap_set :
    (b : ℕ) (s : Pmm)
    → IsValid s
    → s.used_blocks < 2 ^ 32 - 1
    → taken s b ≡ false
    → bitmap_unset b (bitmap_set b s) ≡ s
unfolding bitmap_unset bitmap_set
bitmap_unset-bitmap_set b s v small free =
    λ i. record s { bitmap = same_words i; used_blocks = same_count i }
  where
    clear : bit (s.bitmap (b / 32)) (b % 32) ≡ 0
    clear = ground (arith, bit_lt (s.bitmap (b / 32)) (b % 32))

    same_count : sub32 (add32 s.used_blocks 1) 1 ≡ s.used_blocks
    same_count = omega arith

    same_words : clear_word (set_word s.bitmap b) b ≡ s.bitmap
    same_words = fun_ext λ q.
        ground (
          arith,
          clear_set_word (s.bitmap (b / 32)) (b % 32) (v.words (b / 32)) (omega arith) clear,
        )

-- Freeing what was just allocated restores the state, bit for bit.
pub free_block-alloc_block :
    (s : Pmm)
    → IsValid s
    → s.used_blocks < covered s
    → let (addr, s') = alloc_block s in free_block addr s' ≡ s
unfolding free_block alloc_block
free_block-alloc_block s v room =
    let b = first_free_block s in
    let (a, inside, free, below) = first_free_block_lem s v room in
    let going : (sub32 s.max_blocks s.used_blocks == 0) ≡ false = ground (arith, v.few) in
    let back : mul32 b 4096 / 4096 ≡ b = omega (arith, covered-le s v.few) in
    rw (going, back) (bitmap_unset-bitmap_set b s v (omega (arith, covered-le s v.few)) free)
