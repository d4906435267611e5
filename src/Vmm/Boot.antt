-- ===== src/Vmm/Boot.antt =====
-- `vmm_init`: the page tables that the kernel starts with.
pub mod Blocks
pub mod Start
use piggy_os.Base.{
  ℕ, zero, suc, ◌+◌, ◌*◌, ◌^◌, Bool, true, false, Option, none, some, ltb, if◌then◌else◌, add32,
  update,
}
use piggy_os.Vmm.{
  Vm, Directory, DirEntry, page_bytes, kern_base, allocate_page, dumb_kmalloc,
  switch_page_directory,
}
use piggy_os.Vmm.Region.{allocate_region}

-- `KHEAP_INITIAL_SIZE`: 8 MiB.
abbrev pub kheap_initial_size : ℕ
kheap_initial_size = 8 * 1024 * 1024

-- The bytes of a directory: two arrays of 1024 words.
abbrev pub directory_bytes : ℕ
directory_bytes = 8192

abbrev pub blank_directory : Directory
blank_directory = record {
  tables = λ _. record {
    present = false;
    rw = false;
    user = false;
    page_size = false;
    frame = 0;
    others = 0;
  };
  ref_tables = λ _. 0;
}

-- The directory is taken from the early memory behind the bitmap, and cleared.
unfoldable pub make_kernel_directory : Vm → Vm
make_kernel_directory s =
    let started = record s { temp_mem = add32 s.pmm.pmm_bitmap s.pmm.pmm_bitmap_size } in
    let (dir, s') = dumb_kmalloc directory_bytes true started in
    record s' { kernel_page_dir = dir; dirs = update s'.dirs dir blank_directory }

unfoldable pub enable_paging : Vm → Vm
enable_paging s = record s { paging_enabled = true }

abbrev pub and_then : Option Vm → (Vm → Option Vm) → Option Vm
and_then none k = none
and_then (some s) k = k s

module _ (kmalloc_a : ℕ → Vm → ℕ × Vm) where
  -- `while(i < end) allocate_page(kernel_page_dir, i, 0, 1, is_writable)` on `fuel` rounds.
  pub kernel_loop : ℕ → (i end : ℕ) → (is_writable : Bool) → Vm → Option Vm
  kernel_loop zero i end is_writable s = none
  kernel_loop (suc fuel) i end is_writable s =
      let rest =
        kernel_loop fuel (add32 i page_bytes) end is_writable
          (allocate_page kmalloc_a s.kernel_page_dir i 0 true is_writable s) in
      if ltb i end then rest else some s

  -- `fuel` rounds for each of the loops; the installation of the handler is left out.
  unfoldable pub vmm_init : ℕ → Vm → Option Vm
  vmm_init fuel s =
      let s = make_kernel_directory s in
      and_then (kernel_loop fuel kern_base (kern_base + 0x400000) false s) λ s₁.
        and_then
          (kernel_loop fuel (kern_base + 0x400000) (kern_base + 0x400000 + kheap_initial_size) true
            s₁)
          λ s₂.
            and_then
              (allocate_region kmalloc_a fuel s₂.kernel_page_dir 0 0x10000 true true false s₂)
              λ s₃. some (enable_paging (switch_page_directory s₃.kernel_page_dir s₃))
