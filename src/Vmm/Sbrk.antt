-- ===== src/Vmm/Sbrk.antt =====
-- `ksbrk`: the boundary of the kernel heap.
pub mod Grow
pub mod Shrink
use piggy_os.Base.{
  ℕ, zero, suc, ◌+◌, ◌-◌, ◌*◌, ◌/◌, ◌%◌, ◌^◌, Bool, true, false, not, Option, none, some, ◌==◌, leb,
  ltb, if◌then◌else◌, add32, sub32,
}
use piggy_os.Vmm.{Vm, allocate_page, free_page, page_bytes}

-- `KHEAP_MIN_SIZE`: 4 MiB.
abbrev pub kheap_min_size : ℕ
kheap_min_size = 0x400000

abbrev pub Runner : Type 0
Runner = Option (ℕ × Vm)

abbrev pub and_then : Runner → (ℕ → Vm → Runner) → Runner
and_then none k = none
and_then (some (r, s)) k = k r s

-- `while(runner > new_boundary)` of a negative size, on `fuel` rounds; `none` where it runs out.
pub shrink_loop : ℕ → (runner new_boundary : ℕ) → Vm → Runner
shrink_loop zero runner new_boundary s = none
shrink_loop (suc fuel) runner new_boundary s =
    let rest =
      shrink_loop fuel (sub32 runner page_bytes) new_boundary
        (free_page s.kernel_page_dir runner true s) in
    if ltb new_boundary runner then rest else some (runner, s)

module _ (kmalloc_a : ℕ → Vm → ℕ × Vm) where
  -- `while(runner < new_boundary)` of a positive size.
  pub grow_loop : ℕ → (runner new_boundary : ℕ) → Vm → Runner
  grow_loop zero runner new_boundary s = none
  grow_loop (suc fuel) runner new_boundary s =
      let rest =
        grow_loop fuel (add32 runner page_bytes) new_boundary
          (allocate_page kmalloc_a s.kernel_page_dir runner 0 true true s) in
      if ltb runner new_boundary then rest else some (runner, s)

  -- The size is the bit pattern of an `int32_t`; the answer 0 is NULL. Each restart takes one unit
  -- of `fuel`, and each loop gets `rounds`.
  unfoldable pub ksbrk : (rounds fuel : ℕ) → ℕ → Vm → Runner
  ksbrk rounds zero size s = none
  ksbrk rounds (suc fuel) size s =
      let old = s.heap_curr in
      let up = add32 old size in
      let down = sub32 old size in
      let floor = add32 s.heap_start kheap_min_size in
      let new_boundary = if ltb down floor then floor else down in
      let grown = and_then (grow_loop rounds s.heap_end up s) λ runner s'.
        let again = ksbrk rounds fuel size s' in
        if s'.heap_curr == old
        then some (old, record s' { heap_end = runner; heap_curr = up })
        else again in
      let shrunk =
        and_then (shrink_loop rounds (sub32 s.heap_end page_bytes) new_boundary s) λ runner s'.
          some (old, record s' { heap_end = add32 runner page_bytes; heap_curr = new_boundary }) in
      if size == 0
      then some (old, s)
      else if ltb size (2 ^ 31)
      then (if leb up s.heap_end
          then some (old, record s { heap_curr = up })
          else if ltb s.heap_max up
          then some (0, s)
          else grown)
      else shrunk
