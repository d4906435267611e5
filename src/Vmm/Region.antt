-- ===== src/Vmm/Region.antt =====
-- The loops of vmm.c over an address range.
pub mod Identity
use piggy_os.Base.{
  ℕ, zero, suc, ◌+◌, ◌-◌, ◌*◌, ◌/◌, ◌%◌, ◌^◌, Bool, true, false, Option, none, some, bit_and, ◌==◌,
  leb, if◌then◌else◌, add32,
}
use piggy_os.Vmm.{Vm, allocate_page, free_page, page_bytes}

module _ (kmalloc_a : ℕ → Vm → ℕ × Vm) where
  -- `while(start <= end)` of `allocate_region` on `fuel` rounds; `none` where the fuel runs out.
  pub allocate_loop :
      ℕ → (dir start end : ℕ) → (iden_map is_kernel is_writable : Bool) → Vm → Option Vm
  allocate_loop zero dir start end iden_map is_kernel is_writable s = none
  allocate_loop (suc fuel) dir start end iden_map is_kernel is_writable s =
      let frame = if iden_map then start / page_bytes else 0 in
      let rest =
        allocate_loop fuel dir (add32 start page_bytes) end iden_map is_kernel is_writable
          (allocate_page kmalloc_a dir start frame is_kernel is_writable s) in
      if leb start end then rest else some s

  unfoldable pub allocate_region :
      ℕ → (dir start_va end_va : ℕ) → (iden_map is_kernel is_writable : Bool) → Vm → Option Vm
  unfolding allocate_loop
  allocate_region fuel dir start_va end_va iden_map is_kernel is_writable s =
      allocate_loop fuel dir (bit_and start_va 0xfffff000) (bit_and end_va 0xfffff000) iden_map
        is_kernel is_writable s

-- The loop of `free_region`, which passes 1 on for its own argument `free`.
pub free_loop : ℕ → (dir start end : ℕ) → Vm → Option Vm
free_loop zero dir start end s = none
free_loop (suc fuel) dir start end s =
    let rest = free_loop fuel dir (add32 start page_bytes) end (free_page dir start true s) in
    if leb start end then rest else some s

unfoldable pub free_region : ℕ → (dir start_va end_va : ℕ) → Bool → Vm → Option Vm
unfolding free_loop
free_region fuel dir start_va end_va free s =
    free_loop fuel dir (bit_and start_va 0xfffff000) (bit_and end_va 0xfffff000) s
