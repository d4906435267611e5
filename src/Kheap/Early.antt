-- ===== src/Kheap/Early.antt =====
-- `kmalloc_cont`, `kmalloc_int`, the functions that call it, and `kheap_init`
-- (kernel/memory/kheap.c).
use piggy_os.Base.{
  ℕ, Bool, true, false, not, ◌&&◌, Option, none, some, ◌==◌, if◌then◌else◌, add32, then_with,
  bit_and,
}
use piggy_os.Kheap.{Heap}
use piggy_os.Kheap.Malloc.{Answer, malloc}
use piggy_os.Vmm.{virt2phys}

unfoldable pub kheap_init : (start end max : ℕ) → Heap → Heap
kheap_init start end max h = record h {
  vm = record h.vm {
    heap_start = start;
    heap_end = end;
    heap_max = max;
    heap_curr = start;
    kheap_enabled = true;
  };
}

-- `& 0xFFFFF000`
abbrev pub page_of : ℕ → ℕ
page_of a = bit_and a 0xfffff000

-- Memory before the heap: the address, the state, and the address that is stored to `*phys`.
unfoldable pub place_early : (sz : ℕ) → (aligned : Bool) → Heap → ℕ × Heap
place_early sz aligned h =
    let a = h.placement_address in
    let start = if aligned && not (page_of a == 0) then add32 (page_of a) 0x1000 else a in
    (start, record h { placement_address = add32 start sz })

-- `align` is 0 or 1 in every call.
abbrev pub kmalloc_cont : (sz : ℕ) → (aligned : Bool) → Heap → ℕ × Heap
kmalloc_cont sz aligned h = place_early sz aligned h

-- The answer, the physical address where `phys` is not NULL, and the state.
abbrev pub Placed : Type 0
Placed = Option (ℕ × Option ℕ × Heap)

module _ (ksbrk : ℕ → Heap → Answer) where
  unfoldable pub kmalloc_int : (fuel sz : ℕ) → (aligned phys : Bool) → Heap → Placed
  kmalloc_int fuel sz aligned phys h =
      let early = place_early sz aligned h in
      if h.vm.heap_start == 0
      then some (early.0, if phys then some early.0 else none, early.1)
      else then_with (malloc ksbrk fuel (if aligned then add32 sz 4096 else sz) h) λ (addr, h').
        let answer = if aligned then add32 (page_of addr) 0x1000 else addr in
        some
          (answer, if phys then some (virt2phys h'.vm.kernel_page_dir answer h'.vm) else none, h')

  abbrev pub kmalloc_a : (fuel sz : ℕ) → Heap → Placed
  kmalloc_a fuel sz h = kmalloc_int fuel sz true false h

  abbrev pub kmalloc_p : (fuel sz : ℕ) → Heap → Placed
  kmalloc_p fuel sz h = kmalloc_int fuel sz false true h

  abbrev pub kmalloc_ap : (fuel sz : ℕ) → Heap → Placed
  kmalloc_ap fuel sz h = kmalloc_int fuel sz true true h

  abbrev pub kmalloc : (fuel sz : ℕ) → Heap → Placed
  kmalloc fuel sz h = kmalloc_int fuel sz false false h
