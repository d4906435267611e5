-- ===== src/Vmm/Sbrk/Shrink.antt =====
-- `ksbrk` with a negative size.
use piggy_os.Base.{
  ℕ, suc, ◌+◌, ◌-◌, ◌^◌, ◌≤◌, ◌<◌, ◌≡◌, ◌∙◌, ap, some, ◌==◌, true, ltb, if◌then◌else◌, add32, sub32,
  u32, arith, if_false,
}
use piggy_os.Vmm.{Vm, free_page}
use piggy_os.Vmm.Sbrk.{Runner, and_then, shrink_loop, ksbrk, kheap_min_size}

shrink_case :
    (rounds runner boundary old : ℕ) (s : Vm)
    → runner ≤ boundary
    → and_then
        (shrink_loop (suc rounds) runner boundary s)
        (λ r t. some (old, record t { heap_end = add32 r 4096; heap_curr = boundary }))
      ≡ some (old, record s { heap_end = add32 runner 4096; heap_curr = boundary })
unfolding shrink_loop
shrink_case rounds runner boundary old s h = rw (
    if_false (ltb boundary runner)
      (shrink_loop rounds (sub32 runner 4096) boundary (free_page s.kernel_page_dir runner true s))
      (some (runner, s)) (ground arith))

shrunk_end :
    (rounds n boundary : ℕ) (s : Vm)
    → boundary ≡ s.heap_curr + n
    → 4096 ≤ s.heap_end
    → s.heap_end < 2 ^ 32
    → s.heap_end ≤ s.heap_curr + n
    → and_then
        (shrink_loop (suc rounds) (sub32 s.heap_end 4096) boundary s)
        (λ r t. some (s.heap_curr, record t { heap_end = add32 r 4096; heap_curr = boundary }))
      ≡ some (s.heap_curr, record s { heap_curr = s.heap_curr + n })
shrunk_end rounds n boundary s at end small last =
    let back : add32 (sub32 s.heap_end 4096) 4096 ≡ s.heap_end = omega arith in
    let answer : ℕ → ℕ → Runner =
      λ e c. some (s.heap_curr, record s { heap_end = e; heap_curr = c }) in
    shrink_case rounds (sub32 s.heap_end 4096) boundary s.heap_curr s (omega arith)
    ∙ ap (λ e. answer e boundary) back
    ∙ ap (answer s.heap_end) at

boundary_up :
    (curr floor n : ℕ)
    → 0 < n
    → curr + n < 2 ^ 32
    → floor ≤ curr + n
    → n ≤ 2 ^ 31
    → (if ltb (sub32 curr (2 ^ 32 - n)) (u32 floor) then u32 floor else sub32 curr (2 ^ 32 - n))
      ≡ curr + n
boundary_up curr floor n pos fits low half =
    if_false (ltb (sub32 curr (2 ^ 32 - n)) (u32 floor)) _ _ (ground arith) ∙ omega arith

-- Asked to shrink the heap by `n` bytes, `ksbrk` moves its boundary up by `n` bytes: it subtracts
-- the negative size. Nothing is unmapped, and nothing mapped.
pub ksbrk-moves_up :
    (kmalloc_a : ℕ → Vm → ℕ × Vm) (rounds fuel n : ℕ) (s : Vm)
    → 0 < n
    → n ≤ 2 ^ 31
    → s.heap_curr + n < 2 ^ 32
    → 4096 ≤ s.heap_end
    → s.heap_end ≤ s.heap_curr + n
    → s.heap_start + kheap_min_size ≤ s.heap_curr + n
    → ksbrk kmalloc_a (suc rounds) (suc fuel) (2 ^ 32 - n) s
      ≡ some (s.heap_curr, record s { heap_curr = s.heap_curr + n })
unfolding ksbrk
ksbrk-moves_up kmalloc_a rounds fuel n s pos half fits end last floor =
    if_false (2 ^ 32 - n == 0) _ _ (ground arith)
    ∙ if_false (ltb (2 ^ 32 - n) (2 ^ 31)) _ _ (ground arith)
    ∙ shrunk_end rounds n _ s
        (boundary_up s.heap_curr (s.heap_start + kheap_min_size) n pos fits floor half) end
        (omega arith) last
