-- ===== src/Pmm/Alloc.antt =====
-- `pmm_alloc_block`: first fit, the out-of-memory answer, and the blocks of a last partial word.
use piggy_os.Base.{
  ℕ, ◌+◌, ◌*◌, ◌/◌, ◌^◌, ◌≤◌, ◌<◌, ◌≡◌, refl, ◌∙◌, Bool, true, Option, none, some, false, arith,
  ◌==◌, ◌≢◌, add32, sub32, mul32,
}
use piggy_os.Base.Count.{count, count_turn, all_of_count, count_all, count_lt, count-le}
use piggy_os.Pmm.{Pmm, bitmap_set, first_free_block, scan_words, alloc_block, or_zero}
use piggy_os.Pmm.Scan.{bit_of, IsFirst, scan_words-IsFirst}
use piggy_os.Pmm.Valid.{
  taken, covered, IsValid, set_word, set_word_self, set_word_other, set_word-lt,
}

-- `s'` is `s` with the block `b` marked and counted.
pub record Took (s : Pmm) (b : ℕ) (s' : Pmm) : Type 0 where
  pub was_free : taken s b ≡ false
  pub marked : taken s' b ≡ true
  pub others : (k : ℕ) → b ≢ k → taken s' k ≡ taken s k
  pub counted : s'.used_blocks ≡ s.used_blocks + 1

pub covered-le : (s : Pmm) → s.max_blocks ≤ 2 ^ 20 → covered s ≤ 2 ^ 20
covered-le s h = omega arith

scan-IsFirst :
    (s : Pmm)
    → s.max_blocks ≤ 2 ^ 20
    → IsFirst (taken s) 0 (covered s) (scan_words (s.max_blocks / 32) s.bitmap 0)
scan-IsFirst s few =
    scan_words-IsFirst (s.max_blocks / 32) s.bitmap 0 (covered s) (omega arith)
      (omega (arith, covered-le s few))

some_free :
    (p : ℕ → Bool) (n : ℕ) (o : Option ℕ)
    → IsFirst p 0 n o
    → count p n < n
    → IsFirst p 0 n (some (or_zero o))
some_free p n none h room = absurd (omega (arith, count_all p n (λ k lt. h k (omega arith) lt)))
some_free p n (some b) h room = h

none_free : (p : ℕ → Bool) (n : ℕ) (o : Option ℕ) → IsFirst p 0 n o → count p n ≡ n → or_zero o ≡ 0
none_free p n none h full = refl
none_free p n (some b) h full = absurd (omega (arith, count_lt p b n h.2 h.1))

-- With a free block among the covered ones, `first_free_block` is the lowest.
pub first_free_block_lem :
    (s : Pmm)
    → IsValid s
    → s.used_blocks < covered s
    → IsFirst (taken s) 0 (covered s) (some (first_free_block s))
unfolding first_free_block
first_free_block_lem s v room =
    some_free (taken s) (covered s) (scan_words (s.max_blocks / 32) s.bitmap 0)
      (scan-IsFirst s v.few) (omega (arith, v.counted))

-- Setting the bit of a free block takes it, and keeps the invariant.
pub bitmap_set-Took :
    (b : ℕ) (s : Pmm)
    → IsValid s
    → b < covered s
    → taken s b ≡ false
    → Took s b (bitmap_set b s) × IsValid (bitmap_set b s)
unfolding bitmap_set
bitmap_set-Took b s v inside free = (
  record {
    was_free = free;
    marked = set_word_self s.bitmap b;
    others = set_word_other s.bitmap b;
    counted = exact;
  },
  record {
    words = set_word-lt s.bitmap b v.words;
    few = v.few;
    counted =
        exact
        ∙ omega (
          arith,
          v.counted,
          count_turn (taken s) (bit_of (set_word s.bitmap b)) b (covered s)
              (set_word_other s.bitmap b) free (set_word_self s.bitmap b) inside,
        );
  },
)
  where
    exact : add32 s.used_blocks 1 ≡ s.used_blocks + 1
    exact = omega (arith, v.counted, count-le (taken s) (covered s), covered-le s v.few)

-- `pmm_alloc_block` returns the address of the lowest free block, marks exactly that block,
-- counts it, and keeps the invariant, whenever one of the covered blocks is free.
pub alloc_block-first_fit :
    (s : Pmm)
    → IsValid s
    → s.used_blocks < covered s
    → let (addr, s') = alloc_block s in
      (b : ℕ) × (addr ≡ b * 4096)
      × (b < covered s)
      × ((k : ℕ) → k < b → taken s k ≡ true)
      × Took s b s'
      × IsValid s'
unfolding alloc_block
alloc_block-first_fit s v room =
    let (a, inside, free, below) = first_free_block_lem s v room in
    let (took, valid) = bitmap_set-Took (first_free_block s) s v inside free in
    let going : (sub32 s.max_blocks s.used_blocks == 0) ≡ false = ground (arith, v.few) in
    let exact : mul32 (first_free_block s) 4096 ≡ first_free_block s * 4096 =
      omega (arith, covered-le s v.few) in
    rw going (first_free_block s, exact, inside, (λ k lt. below k (omega arith) lt), took, valid)

-- With every block used, `pmm_alloc_block` answers 0 and changes nothing.
pub alloc_block-out_of_memory :
    (s : Pmm) → s.max_blocks < 2 ^ 32 → s.used_blocks ≡ s.max_blocks → alloc_block s ≡ (0, s)
unfolding alloc_block
alloc_block-out_of_memory s small full =
    let none_left : (sub32 s.max_blocks s.used_blocks == 0) ≡ true = ground arith in rw none_left

-- The blocks behind the last whole word are counted as free and never found: with all covered
-- blocks used and such a block left, `pmm_alloc_block` hands out block 0, which is in use, and the
-- state that it leaves violates the invariant.
pub alloc_block-partial_word :
    (s : Pmm)
    → IsValid s
    → s.used_blocks ≡ covered s
    → covered s < s.max_blocks
    → 0 < covered s
    → let (addr, s') = alloc_block s in
      (addr ≡ 0) × (taken s 0 ≡ true) × (s'.used_blocks ≡ covered s + 1) × (¬ (IsValid s'))
unfolding alloc_block bitmap_set
alloc_block-partial_word s v full more some_word =
    let zero_block : first_free_block s ≡ 0 =
      unfold first_free_block in
      none_free (taken s) (covered s) (scan_words (s.max_blocks / 32) s.bitmap 0)
        (scan-IsFirst s v.few) (omega (arith, v.counted)) in
    let going : (sub32 s.max_blocks s.used_blocks == 0) ≡ false = ground (arith, v.few) in
    rw (going, zero_block)
      (
        refl,
        all_of_count (taken s) (covered s) (omega (arith, v.counted)) 0 some_word,
        omega (arith, v.few),
        λ v'.
            absurd
              (omega (arith, v'.counted, v.few, count-le (taken (bitmap_set 0 s)) (covered s))),
      )
