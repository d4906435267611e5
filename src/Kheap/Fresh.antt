-- ===== src/Kheap/Fresh.antt =====
-- `malloc` where the free list has no block that fits: a new block at the boundary of the heap.
use piggy_os.Base.{
  ℕ, suc, ◌+◌, ◌-◌, ◌*◌, ◌%◌, ◌^◌, ◌≤◌, ◌<◌, ◌≡◌, ◌≢◌, refl, ap, ◌∙◌, arith, true, false, some, leb,
  update, update_ne, update_self, ne→==, lt→ltb, add32, sub32, then_with,
}
use piggy_os.Kheap.{Heap, overhead, set_free, round_up, bestfit, is_free}
use piggy_os.Kheap.Malloc.{Answer, malloc, append_block}
use piggy_os.Kheap.Free.{block_of}
use piggy_os.Vmm.{Vm}
use piggy_os.Vmm.Sbrk.{ksbrk}

-- `ksbrk` of vmm.c on the heap's state.
unfoldable pub sbrk : (kmalloc_a : ℕ → Vm → ℕ × Vm) → (rounds fuel : ℕ) → ℕ → Heap → Answer
sbrk kmalloc_a rounds fuel size h =
    then_with (ksbrk kmalloc_a rounds fuel size h.vm) λ (r, vm). some (r, record h { vm = vm })

pub round_up_bounds :
    (n : ℕ) → n + 15 < 2 ^ 32 → (n ≤ round_up n) × (round_up n < n + 16) × (round_up n % 16 ≡ 0)
round_up_bounds n h = omega arith

-- The state with a new block for `n` bytes at `ret`.
abbrev pub appended : (ret n : ℕ) → Heap → Heap
appended ret n h = (append_block ret (add32 (round_up n) overhead) h).1

-- What stands in a new block's header.
appended-words :
    (ret n : ℕ) (h : Heap) → round_up n + 16 < 2 ^ 32 → (appended ret n h).words ret ≡ round_up n
unfolding append_block
appended-words ret n h lt =
    let block_size = add32 (round_up n) overhead in
    let size = set_free false (sub32 block_size overhead) in
    update_ne (update h.words ret size) (ret + 4 * block_size - 16) size (omega arith)
    ∙ update_self h.words ret size
    ∙ omega arith

appended-tail : (ret n : ℕ) (h : Heap) → (appended ret n h).tail ≡ ret
unfolding append_block
appended-tail ret n h = refl

module _ (ksbrk : ℕ → Heap → Answer) where
  malloc-appended :
      (fuel n ret : ℕ) (h h' : Heap)
      → n ≢ 0
      → bestfit fuel (round_up n) h ≡ some 0
      → ksbrk (add32 (round_up n) overhead) h ≡ some (ret, h')
      → malloc ksbrk fuel n h ≡ some (ret + 48, appended ret n h')
  unfolding malloc append_block
  malloc-appended fuel n ret h h' ne best grown = rw (ne→== n 0 ne, best, grown) refl

  -- Where no block of the free list fits, `malloc` of `n` bytes, not 0 and 31 less than `2 ^ 32` at
  -- most, answers 48 behind the address of `ksbrk`, whatever that is; also where it is NULL, the
  -- answer of a heap that cannot grow. A header there has the size, at least `n`, and is not
  -- free; the header that `free` of the answer reads is another one.
  pub malloc-new :
      (fuel n ret : ℕ) (h h' : Heap)
      → 0 < n
      → n + 31 < 2 ^ 32
      → bestfit fuel (round_up n) h ≡ some 0
      → ksbrk (add32 (round_up n) overhead) h ≡ some (ret, h')
      → (s : Heap) × (malloc ksbrk fuel n h ≡ some (ret + 48, s))
        × (s.tail ≡ ret)
        × (n ≤ s.words ret)
        × (is_free ret s ≡ false)
        × (block_of (ret + 48) ≢ ret)
  malloc-new fuel n ret h h' pos lt best grown =
      let s = appended ret n h' in
      let size : s.words ret ≡ round_up n = appended-words ret n h' (omega arith) in
      let even : s.words ret % 2 ≡ 0 = omega (arith, size) in
      (
        s,
        malloc-appended fuel n ret h h' (omega arith) best grown,
        appended-tail ret n h',
        omega (arith, size),
        busy ret s even,
        λ e. absurd (omega arith),
      )
    where
      busy : (p : ℕ) (t : Heap) → t.words p % 2 ≡ 0 → is_free p t ≡ false
      busy p t e = ground arith

  -- From `2 ^ 32 - 15` on the rounding wraps to 0: `malloc` of such a size asks `ksbrk` for 16
  -- bytes, and answers a block for none.
  pub malloc-wraps :
      (fuel n ret : ℕ) (h h' : Heap)
      → 2 ^ 32 ≤ n + 15
      → n < 2 ^ 32
      → bestfit fuel 0 h ≡ some 0
      → ksbrk 16 h ≡ some (ret, h')
      → (s : Heap) × (malloc ksbrk fuel n h ≡ some (ret + 48, s)) × (s.words ret ≡ 0)
  malloc-wraps fuel n ret h h' lo hi best grown =
      let none_left : round_up n ≡ 0 = omega arith in
      (
        appended ret n h',
        malloc-appended fuel n ret h h' (omega arith) (ap (λ r. bestfit fuel r h) none_left ∙ best)
            (ap (λ r. ksbrk (add32 r overhead) h) none_left ∙ grown),
        appended-words ret n h' (omega arith) ∙ none_left,
      )

-- `ksbrk` inside the part of the heap that is mapped moves the boundary, and answers the old one.
sbrk-mapped :
    (kmalloc_a : ℕ → Vm → ℕ × Vm) (rounds fuel size : ℕ) (h : Heap)
    → 0 < size
    → size < 2 ^ 31
    → h.vm.heap_curr + size ≤ h.vm.heap_end
    → h.vm.heap_end < 2 ^ 32
    → sbrk kmalloc_a rounds (suc fuel) size h
      ≡ some (h.vm.heap_curr, record h { vm = record h.vm { heap_curr = h.vm.heap_curr + size } })
unfolding sbrk ksbrk
sbrk-mapped kmalloc_a rounds fuel size h pos small fits top =
    let up : add32 h.vm.heap_curr size ≡ h.vm.heap_curr + size = omega arith in
    let inside : leb (h.vm.heap_curr + size) h.vm.heap_end ≡ true = ground arith in
    rw (up, ne→== size 0 (omega arith), lt→ltb size (2 ^ 31) small, inside) refl

bestfit-empty : (fuel size : ℕ) (h : Heap) → h.freelist ≡ 0 → bestfit fuel size h ≡ some 0
unfolding bestfit
bestfit-empty fuel size h e = rw e

appended-rest :
    (ret n : ℕ) (h : Heap)
    → ((appended ret n h).freelist ≡ h.freelist) × ((appended ret n h).vm ≡ h.vm)
unfolding append_block
appended-rest ret n h = (refl, refl)

module _ (kmalloc_a : ℕ → Vm → ℕ × Vm) (rounds fuel : ℕ) where
  -- With an empty free list, in the part of the heap that is mapped.
  pub malloc-mapped :
      (rest n : ℕ) (h : Heap)
      → h.freelist ≡ 0
      → 0 < n
      → n < 2 ^ 30
      → h.vm.heap_curr + round_up n + 16 ≤ h.vm.heap_end
      → h.vm.heap_end < 2 ^ 32
      → (s : Heap) × (malloc (sbrk kmalloc_a rounds (suc fuel)) rest n h
          ≡ some (h.vm.heap_curr + 48, s))
        × (s.words h.vm.heap_curr ≡ round_up n)
        × (s.freelist ≡ 0)
        × (s.vm ≡ record h.vm { heap_curr = h.vm.heap_curr + (round_up n + 16) })
  malloc-mapped rest n h e pos small fits top =
      let block_size : add32 (round_up n) overhead ≡ round_up n + 16 = omega arith in
      let h' = record h { vm = record h.vm { heap_curr = h.vm.heap_curr + (round_up n + 16) } } in
      (
        appended h.vm.heap_curr n h',
        malloc-appended (sbrk kmalloc_a rounds (suc fuel)) rest n h.vm.heap_curr h h' (omega arith)
            (bestfit-empty rest (round_up n) h e)
            (ap (λ b. sbrk kmalloc_a rounds (suc fuel) b h) block_size
              ∙ sbrk-mapped kmalloc_a rounds fuel (round_up n + 16) h (omega arith) (omega arith)
                  (omega arith) top),
        appended-words h.vm.heap_curr n h' (omega arith),
        (appended-rest h.vm.heap_curr n h').0 ∙ e,
        (appended-rest h.vm.heap_curr n h').1,
      )

  -- Two allocations in a row overlap, with an empty free list and in the part of the heap that is
  -- mapped: the second one writes the size of its block into the bytes that the first one answered
  -- for more than 16 bytes, since `ksbrk` moves by bytes and the block is laid out in words.
  pub malloc-overlap :
      (rest n m : ℕ) (h : Heap)
      → h.freelist ≡ 0
      → 16 < n
      → n < 2 ^ 30
      → 0 < m
      → m < 2 ^ 30
      → h.vm.heap_curr + round_up n + round_up m + 32 ≤ h.vm.heap_end
      → h.vm.heap_end < 2 ^ 32
      → (p a : ℕ) × (s t : Heap) × (malloc (sbrk kmalloc_a rounds (suc fuel)) rest n h
          ≡ some (p, s))
        × (malloc (sbrk kmalloc_a rounds (suc fuel)) rest m s ≡ some (a + 48, t))
        × (p ≤ a)
        × (a + 4 ≤ p + n)
        × (t.words a ≡ round_up m)
  malloc-overlap rest n m h e n_pos n_small m_pos m_small fits top =
      let one = malloc-mapped rest n h e (omega arith) n_small (omega arith) top in
      let s = one.0 in
      let curr : s.vm.heap_curr ≡ h.vm.heap_curr + (round_up n + 16) =
        ap (λ (v : Vm). v.heap_curr) one.4 in
      let end : s.vm.heap_end ≡ h.vm.heap_end = ap (λ (v : Vm). v.heap_end) one.4 in
      let two = malloc-mapped rest m s one.3 m_pos m_small (omega arith) (omega arith) in
      (h.vm.heap_curr + 48, s.vm.heap_curr, s, two.0, one.1, two.1, omega arith, omega arith, two.2)
