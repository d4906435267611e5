-- ===== src/Vmm/Boot/Start.antt =====
-- The address space that `vmm_init` leaves behind.
use piggy_os.Base.{
  ℕ, ◌+◌, ◌-◌, ◌^◌, ◌≤◌, ◌<◌, ◌≡◌, ◌≢◌, ◌⊎◌, refl, sym, ◌∙◌, true, false, inl, inr, arith, add32,
  sub32, if_false, ap, Option, none, some,
}
use piggy_os.Pmm.{Pmm}
use piggy_os.Pmm.Valid.{covered}
use piggy_os.Pmm.FirstBlocks.{FirstTaken, alloc_block-FirstTaken}
use piggy_os.Vmm.{Vm, kern_base, virt2phys, switch_page_directory}
use piggy_os.Vmm.Early.{dumb_kmalloc-aligned}
use piggy_os.Vmm.Boot.{kernel_loop, make_kernel_directory, enable_paging, vmm_init, directory_bytes}
use piggy_os.Vmm.Boot.Blocks.{MapsBlocks, block_loop-MapsBlocks, join-MapsBlocks}
use piggy_os.Vmm.Translate.{IsEarly, Entered}
use piggy_os.Vmm.Translate.Steps.{translate}
use piggy_os.Vmm.Region.{allocate_region}
use piggy_os.Vmm.Region.Identity.{MapsRange, allocate_region-MapsRange}

-- The end of the bitmap, where the early memory begins.
abbrev pub early_start : Vm → ℕ
early_start s = s.pmm.pmm_bitmap + s.pmm.pmm_bitmap_size

-- An empty directory above the bitmap.
record Made (s s' : Vm) : Type 0 where
  early : IsEarly s'.kernel_page_dir s'
  some_dir : s'.kernel_page_dir ≢ 0
  same_pmm : s'.pmm ≡ s.pmm
  temp_mem : s'.temp_mem ≡ early_start s + 8192
  unmapped : (va : ℕ) → translate s'.kernel_page_dir va s' ≡ none

make_kernel_directory-Made :
    (s : Vm)
    → s.kheap_enabled ≡ false
    → s.paging_enabled ≡ false
    → early_start s + 8192 < 2 ^ 32
    → Made s (make_kernel_directory s)
unfolding make_kernel_directory translate
make_kernel_directory-Made s off still room =
    let started = record s { temp_mem = add32 s.pmm.pmm_bitmap s.pmm.pmm_bitmap_size } in
    rw (dumb_kmalloc-aligned directory_bytes started (omega arith)) (record {
      early = record {
        no_heap = off;
        distinct = ground arith;
        below = ground arith;
        no_paging = still;
        entered = record { there = ground arith; absent = ground arith };
      };
      some_dir = omega arith;
      same_pmm = refl;
      temp_mem = omega arith;
      unmapped = λ va. ground arith;
    })

-- The address space at the end of `vmm_init`.
pub record Mapped (s s' : Vm) : Type 0 where
  pub dir_real : s'.kernel_page_dir ≢ 0
  pub current : s'.current_page_dir ≡ s'.kernel_page_dir
  pub paging : s'.paging_enabled ≡ true
  -- the processor walks this directory, whose entries are those of `ref_tables`
  pub base : s'.cr3 ≡ sub32 s'.kernel_page_dir kern_base
  pub entered : Entered (s'.dirs s'.kernel_page_dir)
  -- the kernel and its first heap: 12 MiB from `KERN_BASE` on
  pub kernel :
      (va : ℕ)
      → kern_base ≤ va
      → va < kern_base + 0xc00000
      → translate s'.kernel_page_dir va s' ≡ some (va - kern_base)
  pub low : (va : ℕ) → 4096 ≤ va → va < 0x11000 → translate s'.kernel_page_dir va s' ≡ some va
  -- page 0 is mapped to the block behind those of the kernel and the heap
  pub page_zero : (va : ℕ) → va < 4096 → translate s'.kernel_page_dir va s' ≡ some (0xc00000 + va)
  pub nothing_else :
      (va : ℕ)
      → 0x11000 ≤ va
      → (va < kern_base) ⊎ (kern_base + 0xc00000 ≤ va)
      → translate s'.kernel_page_dir va s' ≡ none

abbrev pub IsMapped : Vm → Option Vm → Type 0
IsMapped s none = ⊥
IsMapped s (some s') = Mapped s s'

finish : Vm → Vm
finish s = enable_paging (switch_page_directory s.kernel_page_dir s)

finish-facts :
    (s : Vm)
    → s.paging_enabled ≡ false
    → let s' = finish s in
      (s'.kernel_page_dir ≡ s.kernel_page_dir)
      × (s'.current_page_dir ≡ s.kernel_page_dir)
      × (s'.paging_enabled ≡ true)
      × (s'.cr3 ≡ sub32 s.kernel_page_dir kern_base)
      × (s'.dirs ≡ s.dirs)
      × ((dir va : ℕ) → translate dir va s' ≡ translate dir va s)
unfolding translate finish enable_paging switch_page_directory virt2phys
finish-facts s still = (refl, refl, refl, if_false s.paging_enabled _ _ still, refl, λ dir va. refl)

-- The walk at the end of the kernel loops (`s₂`) and of the identity map (`s₃`).
Walk : ℕ → Vm → Vm → Type 0
Walk dir s₂ s₃ =
    ((va : ℕ)
      → kern_base ≤ va
      → va < kern_base + 0xc00000
      → translate dir va s₃ ≡ some (va - kern_base))
    × ((va : ℕ) → 4096 ≤ va → va < 0x11000 → translate dir va s₃ ≡ some va)
    × ((va : ℕ) → va < 4096 → translate dir va s₃ ≡ some (0xc00000 + va))
    × ((va : ℕ)
        → 0x11000 ≤ va
        → (va < kern_base) ⊎ (kern_base + 0xc00000 ≤ va)
        → translate dir va s₃ ≡ none)

walk :
    (dir : ℕ) (s₀ s₂ s₃ : Vm)
    → ((va : ℕ) → translate dir va s₀ ≡ none)
    → MapsBlocks dir 0xc0000 3072 0 s₀ s₂
    → MapsRange dir 0 16 s₂ s₃
    → 3073 ≤ covered s₂.pmm
    → Walk dir s₂ s₃
unfolding Walk
walk dir s₀ s₂ s₃ unmapped b r enough = (
  λ va lo hi.
      r.outside va (inr (omega arith))
      ∙ b.inside va (omega arith) (omega arith)
      ∙ ap some (omega arith),
  λ va lo hi. r.inside va (omega arith) (omega arith) (omega arith),
  λ va lo.
      r.page_zero va refl lo
      ∙ ap some (omega (arith, (alloc_block-FirstTaken 3072 s₂.pmm b.blocks (omega arith)).0)),
  λ va lo o. r.outside va (inr (omega arith)) ∙ b.outside va (omega arith) ∙ unmapped va,
)

finish-Mapped :
    (dir : ℕ) (s s₂ s₃ : Vm)
    → dir ≢ 0
    → s₃.kernel_page_dir ≡ dir
    → IsEarly dir s₃
    → Walk dir s₂ s₃
    → Mapped s (finish s₃)
unfolding Walk
finish-Mapped dir s s₂ s₃ real at early (kernel, low, page_zero, nothing_else) =
    let (dir', current, paging, base, dirs, same) = finish-facts s₃ early.no_paging in
    let here : (va : ℕ)
        → translate (finish s₃).kernel_page_dir va (finish s₃) ≡ translate dir va s₃ =
      λ va. ap (λ d. translate d va (finish s₃)) (dir' ∙ at) ∙ same dir va in
    record {
      dir_real = rw (dir' ∙ at) real;
      current = current ∙ sym dir';
      paging = paging;
      base = base ∙ ap (λ d. sub32 d kern_base) (sym dir');
      entered = rw (dirs, dir', at) early.entered;
      kernel = λ va lo hi. here va ∙ kernel va lo hi;
      low = λ va lo hi. here va ∙ low va lo hi;
      page_zero = λ va lo. here va ∙ page_zero va lo;
      nothing_else = λ va lo o. here va ∙ nothing_else va lo o;
    }

module _ (kmalloc_a : ℕ → Vm → ℕ × Vm) where
  -- Both loops, over the kernel and over its heap.
  kernel_loops :
      (fuel : ℕ) (s s₀ : Vm)
      → 2048 < fuel
      → Made s s₀
      → FirstTaken 0 s.pmm
      → 3073 ≤ covered s.pmm
      → early_start s + 2 ^ 24 ≤ 2 ^ 32
      → (s₁ s₂ : Vm) × (kernel_loop kmalloc_a fuel 0xc0000000 0xc0400000 false s₀ ≡ some s₁)
        × (kernel_loop kmalloc_a fuel 0xc0400000 0xc0c00000 true s₁ ≡ some s₂)
        × MapsBlocks s₀.kernel_page_dir 0xc0000 3072 0 s₀ s₂
        × (3073 ≤ covered s₂.pmm)
  kernel_loops fuel s s₀ fits made empty enough room =
      let dir = s₀.kernel_page_dir in
      let same : s₀.pmm.max_blocks ≡ s.pmm.max_blocks =
        ap (λ (q : Pmm). q.max_blocks) made.same_pmm in
      let (s₁, run₁, a) =
        block_loop-MapsBlocks kmalloc_a false 1024 fuel 0xc0000 0xc0400 0 dir s₀ (omega arith) refl
          (omega arith) (omega arith) made.some_dir made.early (rw made.same_pmm empty)
          (omega (arith, same)) (omega (arith, made.temp_mem)) (λ va p q. made.unmapped va) in
      let (s₂, run₂, b) =
        block_loop-MapsBlocks kmalloc_a true 2048 fuel 0xc0400 0xc0c00 1024 dir s₁ (omega arith)
          (sym a.same_dir) (omega arith) (omega arith) made.some_dir a.early a.blocks
          (omega (arith, same, a.same_max)) (omega (arith, made.temp_mem, a.temp_mem))
          (λ va p q. a.outside va (inr (omega arith)) ∙ made.unmapped va) in
      (
        s₁,
        s₂,
        run₁,
        run₂,
        join-MapsBlocks dir 0xc0000 1024 2048 0 s₀ s₁ s₂ a b,
        omega (arith, same, a.same_max, b.same_max),
      )

  -- The identity map and what follows it.
  identity_map :
      (fuel dir : ℕ) (s s₀ s₂ : Vm)
      → 2048 < fuel
      → dir ≡ s₂.kernel_page_dir
      → dir ≢ 0
      → ((va : ℕ) → translate dir va s₀ ≡ none)
      → MapsBlocks dir 0xc0000 3072 0 s₀ s₂
      → 3073 ≤ covered s₂.pmm
      → s₂.temp_mem + 2 ^ 20 ≤ 2 ^ 32
      → (s₃ : Vm) × (allocate_region kmalloc_a fuel s₂.kernel_page_dir 0 0x10000 true true false s₂
          ≡ some s₃)
        × Mapped s (finish s₃)
  identity_map fuel dir s s₀ s₂ fits at real unmapped b more room =
      let (s₃, run, r) =
        allocate_region-MapsRange kmalloc_a dir true false fuel 0 0x10000 s₂ (omega arith)
          (omega arith) (omega arith) real b.early (omega arith)
          (λ va lo hi. b.outside va (inl (omega arith)) ∙ unmapped va) in
      (
        s₃,
        ap (λ d. allocate_region kmalloc_a fuel d 0 0x10000 true true false s₂) (sym at) ∙ run,
        finish-Mapped dir s s₂ s₃ real (r.same_dir ∙ sym at) r.early
            (walk dir s₀ s₂ s₃ unmapped b r more),
      )

  -- Started from an empty bitmap of at least 3073 blocks, with 16 MiB of addresses behind it, no heap
  -- yet and paging off, `vmm_init` returns, and leaves paging on. The page directory base is the
  -- physical address of a directory whose entries are present exactly for its tables, with the physical
  -- addresses of these; and its tables map the 12 MiB from `KERN_BASE` on to the first 12 MiB of
  -- physical memory, the addresses from 4096 to 0x10fff to themselves, page 0 to the physical address
  -- 0xc00000, and nothing else.
  pub vmm_init-IsMapped :
      (fuel : ℕ) (s : Vm)
      → 2048 < fuel
      → s.kheap_enabled ≡ false
      → s.paging_enabled ≡ false
      → FirstTaken 0 s.pmm
      → 3073 ≤ covered s.pmm
      → early_start s + 2 ^ 24 ≤ 2 ^ 32
      → IsMapped s (vmm_init kmalloc_a fuel s)
  unfolding vmm_init finish
  vmm_init-IsMapped fuel s fits off still empty enough room =
      let s₀ = make_kernel_directory s in
      let made = make_kernel_directory-Made s off still (omega arith) in
      let (s₁, s₂, run₁, run₂, b, more) = kernel_loops fuel s s₀ fits made empty enough room in
      let (s₃, run₃, mapped) =
        identity_map fuel s₀.kernel_page_dir s s₀ s₂ fits (sym b.same_dir) made.some_dir
          made.unmapped b more (omega (arith, made.temp_mem, b.temp_mem)) in
      rw (run₁, run₂, run₃) mapped
