-- ===== src/Vmm/Translate/Free.antt =====
-- `free_page`: what it unmaps, and what it gives back.
use piggy_os.Base.{ℕ, ◌*◌, ◌/◌, ◌^◌, ◌<◌, ◌≡◌, ◌≢◌, Bool, if◌then◌else◌, arith, none, some}
use piggy_os.Pmm.{free_block}
use piggy_os.Vmm.{Vm, dir_index, free_page}
use piggy_os.Vmm.Translate.Steps.{translate, Distinct, same_page}

-- `s'` is `s` with the page of `va`, which was mapped to `phys`, unmapped; its block goes back to
-- the physical memory manager if `free` is set, and no other page changes.
pub record Unmaps (dir va : ℕ) (free : Bool) (phys : ℕ) (s s' : Vm) : Type 0 where
  pub gone : translate dir va s' ≡ none
  pub others : (va' : ℕ) → va / 4096 ≢ va' / 4096 → translate dir va' s' ≡ translate dir va' s
  pub pmm : s'.pmm ≡ (if free then free_block (phys / 4096 * 4096) s.pmm else s.pmm)

-- `free_page` of a mapped page of any directory but the boot one unmaps exactly that page, and
-- gives its block back if it is told to.
pub free_page-Unmaps :
    (dir va : ℕ) (free : Bool) (s : Vm) {phys : ℕ}
    → dir ≢ s.boot_page_dir
    → Distinct (s.dirs dir)
    → phys < 2 ^ 32
    → translate dir va s ≡ some phys
    → Unmaps dir va free phys s (free_page dir va free s)
unfolding translate free_page
free_page-Unmaps dir va free s {phys} other distinct small e = record {
  gone = ground arith;
  others = λ va' ne. ground (arith, distinct (dir_index va) (dir_index va'), same_page va va');
  pmm = ground arith;
}

-- `free_page` of a page that is not mapped changes nothing.
pub free_page-unmapped :
    (dir va : ℕ) (free : Bool) (s : Vm) → translate dir va s ≡ none → free_page dir va free s ≡ s
unfolding translate free_page
free_page-unmapped dir va free s e = ground arith
