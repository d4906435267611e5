-- ===== src/Vmm/Early.antt =====
-- `dumb_kmalloc`, the allocator of the time before the heap.
use piggy_os.Base.{
  ℕ, ◌+◌, ◌*◌, ◌/◌, ◌%◌, ◌^◌, ◌≤◌, ◌<◌, ◌≡◌, bit_or, true, false, ◌==◌, arith, add32, ap,
  Bool-cases, inl, inr,
}
use piggy_os.Base.Bits.{bit, bit-bit_or, bit-zero, bit_and-high_mask}
use piggy_os.Vmm.{Vm, align, is_align, dumb_kmalloc}

-- `IS_ALIGN` joins a mask of ones where it means to test the low bits, so it never holds.
pub is_align_lem : (addr : ℕ) → is_align addr ≡ false
unfolding is_align bit
is_align_lem addr = elim (Bool-cases (bit_or addr 0xfffff000 == 0)) [
  | inl e ↦
      let zero_or : bit_or addr 0xfffff000 ≡ 0 = ground arith in
      absurd (omega (arith, ap (λ w. bit w 12) zero_or, bit-bit_or addr 0xfffff000 12, bit-zero 12))
  | inr e ↦ e
]

-- `ALIGN` goes to the next page boundary, also from one.
pub align_lem : (addr : ℕ) → addr + 4096 < 2 ^ 32 → align addr ≡ addr / 4096 * 4096 + 4096
unfolding align
align_lem addr h = let mask = bit_and-high_mask 12 20 addr (omega arith) in omega (arith, mask)

-- An aligned request is answered with the first page boundary above `temp_mem`.
pub dumb_kmalloc-aligned :
    (size : ℕ) (s : Vm)
    → s.temp_mem + 4096 < 2 ^ 32
    → dumb_kmalloc size true s
      ≡ (s.temp_mem / 4096 * 4096 + 4096, record s { temp_mem = add32 s.temp_mem size })
unfolding dumb_kmalloc
dumb_kmalloc-aligned size s h = rw (is_align_lem s.temp_mem, align_lem s.temp_mem h)

-- Two aligned requests in a row get whole pages that do not overlap, provided the first one is for
-- a multiple of the page size: `temp_mem` moves on by the size alone, not by what the alignment
-- skips.
pub dumb_kmalloc-disjoint :
    (size size' : ℕ) (s : Vm)
    → size % 4096 ≡ 0
    → s.temp_mem + size + 4096 < 2 ^ 32
    → let (a, s') = dumb_kmalloc size true s in
      let (b, s'') = dumb_kmalloc size' true s' in
      (a % 4096 ≡ 0) × (b % 4096 ≡ 0) × (s.temp_mem < a) × (a + size ≤ b)
dumb_kmalloc-disjoint size size' s whole room =
    rw
      (
        dumb_kmalloc-aligned size s (omega arith),
        dumb_kmalloc-aligned size' (record s { temp_mem = add32 s.temp_mem size }) (omega arith),
      )
      (omega arith)
