-- ===== src/Kheap/Aligned.antt =====
-- `kmalloc_int`: where its answers stand.
use piggy_os.Base.{
  ℕ, ◌+◌, ◌*◌, ◌/◌, ◌%◌, ◌^◌, ◌≤◌, ◌<◌, ◌≡◌, ◌≢◌, refl, ap, ◌∙◌, arith, Bool, true, false, none,
  some, add32, ne→==,
}
use piggy_os.Base.Bits.{bit_and-high_mask}
use piggy_os.Kheap.{Heap}
use piggy_os.Kheap.Malloc.{Answer, malloc}
use piggy_os.Kheap.Early.{kmalloc_int, place_early, page_of}
use piggy_os.Vmm.{Vm}

page_of-floor : (a : ℕ) → a < 2 ^ 32 → page_of a ≡ a / 4096 * 4096
page_of-floor a h = bit_and-high_mask 12 20 a h

-- An aligned request to the heap answers the first page boundary behind the address `addr` that
-- `malloc` answers, and what is asked for fits between it and the end of what `malloc` was asked for.
pub kmalloc_int-aligned :
    (ksbrk : ℕ → Heap → Answer) (fuel sz addr : ℕ) (h h' : Heap)
    → h.vm.heap_start ≢ 0
    → addr + 4096 < 2 ^ 32
    → sz + 4096 < 2 ^ 32
    → malloc ksbrk fuel (sz + 4096) h ≡ some (addr, h')
    → (a : ℕ) × (kmalloc_int ksbrk fuel sz true false h ≡ some (a, none, h'))
      × (a % 4096 ≡ 0)
      × (addr < a)
      × (a + sz ≤ addr + (sz + 4096))
unfolding kmalloc_int
kmalloc_int-aligned ksbrk fuel sz addr h h' on room small got =
    let floor : page_of addr ≡ addr / 4096 * 4096 = page_of-floor addr (omega arith) in
    let asked : add32 sz 4096 ≡ sz + 4096 = omega arith in
    (
      add32 (page_of addr) 0x1000,
      rw (ne→== h.vm.heap_start 0 on, asked, got) refl,
      omega (arith, floor),
      omega (arith, floor),
      omega (arith, floor),
    )

-- Where `place_early` starts, and where it leaves the next request to start.
place_early-bounds :
    (n : ℕ) (aligned : Bool) (h : Heap)
    → h.placement_address + n + 0x1000 < 2 ^ 32
    → (h.placement_address ≤ (place_early n aligned h).0)
      × ((place_early n aligned h).0 ≤ h.placement_address + 0x1000)
      × ((place_early n aligned h).1.placement_address ≡ (place_early n aligned h).0 + n)
      × (aligned ≡ true → 4096 ≤ h.placement_address → (place_early n aligned h).0 % 4096 ≡ 0)
unfolding place_early
place_early-bounds n false h room = (omega arith, omega arith, omega arith, λ e. cc)
place_early-bounds n true h room =
    let floor = page_of-floor h.placement_address (omega arith) in
    (
      ground (arith, floor),
      ground (arith, floor),
      ground (arith, floor),
      λ e k. ground (arith, floor),
    )

place_early-vm : (n : ℕ) (aligned : Bool) (h : Heap) → (place_early n aligned h).1.vm ≡ h.vm
unfolding place_early
place_early-vm n aligned h = refl

kmalloc_int-place :
    (ksbrk : ℕ → Heap → Answer) (fuel n : ℕ) (aligned : Bool) (h : Heap)
    → h.vm.heap_start ≡ 0
    → kmalloc_int ksbrk fuel n aligned true h
      ≡ some (
        (place_early n aligned h).0,
        some (place_early n aligned h).0,
        (place_early n aligned h).1,
      )
unfolding kmalloc_int
kmalloc_int-place ksbrk fuel n aligned h off = rw off refl

-- Before the heap is set up, two requests in a row do not overlap, aligned or not: the second answer
-- stands at the end of what the first one asked for or behind it. An aligned answer from 4096 on is
-- at a page boundary. The address stored as the physical one is the answer itself.
pub kmalloc_int-disjoint :
    (ksbrk : ℕ → Heap → Answer) (fuel n m : ℕ) (aligned aligned' : Bool) (h : Heap)
    → h.vm.heap_start ≡ 0
    → h.placement_address + n + m + 0x2000 < 2 ^ 32
    → (p q : ℕ) × (s t : Heap) × (kmalloc_int ksbrk fuel n aligned true h ≡ some (p, some p, s))
      × (kmalloc_int ksbrk fuel m aligned' true s ≡ some (q, some q, t))
      × (h.placement_address ≤ p)
      × (p + n ≤ q)
      × (t.placement_address ≡ q + m)
      × (aligned ≡ true → 4096 ≤ h.placement_address → p % 4096 ≡ 0)
kmalloc_int-disjoint ksbrk fuel n m aligned aligned' h off room =
    let first = place_early n aligned h in
    let second = place_early m aligned' first.1 in
    let one = place_early-bounds n aligned h (omega arith) in
    let two = place_early-bounds m aligned' first.1 (omega (arith, one.1, one.2)) in
    let off' : first.1.vm.heap_start ≡ 0 =
      ap (λ (v : Vm). v.heap_start) (place_early-vm n aligned h) ∙ off in
    (
      first.0,
      second.0,
      first.1,
      second.1,
      kmalloc_int-place ksbrk fuel n aligned h off,
      kmalloc_int-place ksbrk fuel m aligned' first.1 off',
      one.0,
      omega (arith, one.2, two.0),
      two.2,
      one.3,
    )
