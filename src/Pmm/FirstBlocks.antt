-- ===== src/Pmm/FirstBlocks.antt =====
-- Allocation from an empty bitmap hands out the blocks in order.
use piggy_os.Base.{ℕ, suc, ◌*◌, ◌≤◌, ◌<◌, ◌≡◌, ◌∙◌, true, false, inl, inr, ◌==◌, arith, Bool-cases}
use piggy_os.Pmm.{Pmm, alloc_block, bitmap_set}
use piggy_os.Pmm.Valid.{taken, covered, IsValid}
use piggy_os.Pmm.Alloc.{alloc_block-first_fit}

-- The first `k` blocks are taken and the other covered ones are free.
pub record FirstTaken (k : ℕ) (s : Pmm) : Type 0 where
  pub valid : IsValid s
  pub used : s.used_blocks ≡ k
  pub below : (b : ℕ) → b < k → taken s b ≡ true
  pub above : (b : ℕ) → k ≤ b → b < covered s → taken s b ≡ false

pub alloc_block-max_blocks : (s : Pmm) → (alloc_block s).1.max_blocks ≡ s.max_blocks
unfolding alloc_block bitmap_set
alloc_block-max_blocks s = ground arith

lowest :
    (k b : ℕ) (s : Pmm)
    → FirstTaken k s
    → k < covered s
    → taken s b ≡ false
    → ((j : ℕ) → j < b → taken s j ≡ true)
    → b ≡ k
lowest k b s f room free all = elim (Bool-cases (b == k)) [
  | inl e ↦ ground arith
  | inr ne ↦ ground (arith, f.below b, all k, f.above k (omega arith) room)
]

-- From such a state the next allocation returns block `k`.
pub alloc_block-FirstTaken :
    (k : ℕ) (s : Pmm)
    → FirstTaken k s
    → k < covered s
    → ((alloc_block s).0 ≡ k * 4096) × FirstTaken (suc k) (alloc_block s).1
alloc_block-FirstTaken k s f room =
    let (b, addr, inside, all, took, valid) =
      alloc_block-first_fit s f.valid (omega (arith, f.used)) in
    let e = lowest k b s f room took.was_free all in
    let same = alloc_block-max_blocks s in
    (
      omega (arith, addr, e),
      record {
        valid = valid;
        used = omega (arith, took.counted, f.used);
        below = λ j lt. elim (Bool-cases (b == j)) [
          | inl at ↦ ground (arith, took.marked)
          | inr ne ↦ took.others j (ground arith) ∙ f.below j (ground arith)
        ];
        above =
            λ j le lt. took.others j (omega arith) ∙ f.above j (omega arith) (omega (arith, same));
      },
    )
