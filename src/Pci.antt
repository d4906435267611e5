-- ===== src/Pci.antt =====
-- kernel/drivers/pci.c: the addresses of configuration registers, and the search for devices. What
-- the port at 0xCFC yields once an address was written to 0xCF8 is the parameter `config`.
pub mod Address
pub mod Probe
mod Tests
use piggy_os.Base.{
  ℕ, zero, suc, ◌+◌, ◌-◌, ◌*◌, ◌/◌, ◌%◌, ◌^◌, bit_and, bit_or, Bool, true, false, not, ◌&&◌, ◌||◌,
  List, [], ◌∷◌, ◌++◌, ◌==◌, if◌then◌else◌, u16, u32, ltb, length, Option, none, some, then_with,
}

-- `pci_device`; a device that was found has no driver.
pub record PciDevice : Type 0 where
  pub vendor : ℕ
  pub device : ℕ
  pub func : ℕ
  pub driver : ℕ

-- The address that `pci_read_word` writes, from 16-bit arguments.
unfoldable pub read_address : (bus slot func offset : ℕ) → ℕ
read_address bus slot func offset = u32 (
    bit_or
      (bit_or (bit_or (bit_or (bus * 2 ^ 16) (slot * 2 ^ 11)) (func * 2 ^ 8)) (bit_and offset 0xfc))
      0x80000000)

unfoldable pub pci_read_word : (config : ℕ → ℕ) → (bus slot func offset : ℕ) → ℕ
unfolding read_address
pci_read_word config bus slot func offset =
    u16 (config (read_address bus slot func offset) / 2 ^ (bit_and offset 2 * 8))

-- The address that `pci_write_word` writes: `||` yields 1 where one of its sides is not 0.
unfoldable pub write_address : (bus slot func offset : ℕ) → ℕ
write_address bus slot func offset =
    let rest =
      bit_or (bit_or (bit_or (u32 (slot * 2 ^ 11)) (u32 (func * 2 ^ 8))) (bit_and offset 0xfc))
        0x80000000 in
    if u32 (bus * 2 ^ 16) == 0 && rest == 0 then 0 else 1

abbrev pub get_vendor_id : (config : ℕ → ℕ) → (bus device function : ℕ) → ℕ
get_vendor_id config bus device function = pci_read_word config bus device function 0

abbrev pub get_device_id : (config : ℕ → ℕ) → (bus device function : ℕ) → ℕ
get_device_id config bus device function = pci_read_word config bus device function 2

-- The pointers that fit into the block behind `pci_devices`: `32 * sizeof(pci_device)` bytes.
abbrev pub room : ℕ
room = 128

-- The devices that `pci_devices` points to, in their order; `devs` is their number. There is no test
-- that the block has room: `none` where a pointer is written behind it, which is undefined in C.
abbrev pub add_pci_device : PciDevice → List PciDevice → Option (List PciDevice)
add_pci_device pdev found = if ltb (length found) room then some (found ++ (pdev ∷ [])) else none

-- The body of the loops of `pci_probe`: the device, if there is one, behind those found before.
abbrev pub probe_at :
    (config : ℕ → ℕ) → (bus slot function : ℕ) → List PciDevice → Option (List PciDevice)
probe_at config bus slot function found =
    let vendor = get_vendor_id config bus slot function in
    if vendor == 0xffff
    then some found
    else add_pci_device
        (record {
          vendor = vendor;
          device = get_device_id config bus slot function;
          func = function;
          driver = 0;
        })
        found

-- The loops, with `n` rounds left, over the functions of a slot, the slots of a bus, the buses.
pub probe_functions :
    (config : ℕ → ℕ) → (n bus slot function : ℕ) → List PciDevice → Option (List PciDevice)
probe_functions config zero bus slot function found = some found
probe_functions config (suc n) bus slot function found =
    then_with (probe_at config bus slot function found)
      (probe_functions config n bus slot (suc function))

pub probe_slots : (config : ℕ → ℕ) → (n bus slot : ℕ) → List PciDevice → Option (List PciDevice)
probe_slots config zero bus slot found = some found
probe_slots config (suc n) bus slot found =
    then_with (probe_functions config 8 bus slot 0 found) (probe_slots config n bus (suc slot))

pub probe_buses : (config : ℕ → ℕ) → (n bus : ℕ) → List PciDevice → Option (List PciDevice)
probe_buses config zero bus found = some found
probe_buses config (suc n) bus found =
    then_with (probe_slots config 32 bus 0 found) (probe_buses config n (suc bus))

unfoldable pub pci_probe : (config : ℕ → ℕ) → List PciDevice → Option (List PciDevice)
unfolding probe_buses probe_slots probe_functions
pci_probe config found = probe_buses config 256 0 found

-- 0 where there is a device, and the vendor number of a missing one where there is none.
unfoldable pub pci_check_vendor : (config : ℕ → ℕ) → (bus slot : ℕ) → ℕ
pci_check_vendor config bus slot =
    let vendor = pci_read_word config bus slot 0 0 in if vendor == 0xffff then vendor else 0
