-- ===== src/Pci/Probe.antt =====
-- `pci_probe` finds the devices that answer.
use piggy_os.Base.{
  ℕ, zero, suc, ◌+◌, ◌*◌, ◌/◌, ◌%◌, ◌^◌, ◌<◌, ◌≤◌, ◌≡◌, refl, sym, ap, ◌∙◌, subst, arith, List, [],
  ◌∷◌, ◌++◌, Option, some, ◌==◌, ltb, if◌then◌else◌, true, Bool-cases, inl, inr, length,
  length-append, then_with, bit_and,
}
use piggy_os.Pci.{
  PciDevice, room, read_address, pci_read_word, get_vendor_id, get_device_id, probe_at,
  probe_functions, probe_slots, probe_buses, pci_probe,
}
use piggy_os.Pci.Address.{read_address-fields}

-- The first register of a function: the number of the vendor, and above it that of the device.
abbrev pub first_register : (config : ℕ → ℕ) → (bus slot function : ℕ) → ℕ
first_register config bus slot function =
    config (2 ^ 31 + bus * 2 ^ 16 + slot * 2 ^ 11 + function * 2 ^ 8)

-- The device at a place as a list of none or one.
abbrev pub answering : (config : ℕ → ℕ) → (bus slot function : ℕ) → List PciDevice
answering config bus slot function =
    let register = first_register config bus slot function in
    if register % 2 ^ 16 == 0xffff
    then []
    else record {
      vendor = register % 2 ^ 16;
      device = register / 2 ^ 16 % 2 ^ 16;
      func = function;
      driver = 0;
    }
      ∷ []

-- The lists of `n` numbers from `i` on, one behind the other.
unfoldable pub concat_from : (ℕ → List PciDevice) → (n i : ℕ) → List PciDevice
concat_from f zero i = []
concat_from f (suc n) i = f i ++ concat_from f n (suc i)

append_nil : (xs : List PciDevice) → xs ++ [] ≡ xs
append_nil [] = refl
append_nil (x ∷ xs) = ap (λ ys. x ∷ ys) (append_nil xs)

append_assoc : (xs ys zs : List PciDevice) → (xs ++ ys) ++ zs ≡ xs ++ (ys ++ zs)
append_assoc [] ys zs = refl
append_assoc (x ∷ xs) ys zs = ap (λ us. x ∷ us) (append_assoc xs ys zs)

read_words :
    (config : ℕ → ℕ) (bus slot function : ℕ)
    → bus < 256
    → slot < 32
    → function < 8
    → let register = first_register config bus slot function in
      (get_vendor_id config bus slot function ≡ register % 2 ^ 16)
      × (get_device_id config bus slot function ≡ register / 2 ^ 16 % 2 ^ 16)
unfolding pci_read_word
read_words config bus slot function a b c =
    let at : read_address bus slot function 0
        ≡ 2 ^ 31 + bus * 2 ^ 16 + slot * 2 ^ 11 + function * 2 ^ 8 =
      read_address-fields bus slot function 0 a b c (omega arith) ∙ (omega arith) in
    let at' : read_address bus slot function 2
        ≡ 2 ^ 31 + bus * 2 ^ 16 + slot * 2 ^ 11 + function * 2 ^ 8 =
      read_address-fields bus slot function 2 a b c (omega arith) ∙ (omega arith) in
    (
      ap (λ (t : ℕ). config t / 2 ^ (bit_and 0 2 * 8) % 2 ^ 16) at ∙ (omega arith),
      ap (λ (t : ℕ). config t / 2 ^ (bit_and 2 2 * 8) % 2 ^ 16) at' ∙ refl,
    )

-- A step adds the devices `ys` to any list where they have room.
abbrev Adds : (List PciDevice → Option (List PciDevice)) → List PciDevice → Type 0
Adds step ys =
    (found : List PciDevice) → length (found ++ ys) ≤ 128 → step found ≡ some (found ++ ys)

probe_at-answering :
    (config : ℕ → ℕ) (bus slot function : ℕ)
    → bus < 256
    → slot < 32
    → function < 8
    → Adds (probe_at config bus slot function) (answering config bus slot function)
probe_at-answering config bus slot function a b c found fits =
    let (vendor, device) = read_words config bus slot function a b c in
    elim (Bool-cases (first_register config bus slot function % 2 ^ 16 == 0xffff)) [
      | inl e ↦ rw (vendor, e) (ap some (sym (append_nil found)))
      | inr e ↦
          let one = length-append found (answering config bus slot function) in
          let less : ltb (length found) room ≡ true = ground (arith, e, one) in
          rw (vendor, e, device, less) refl
    ]

-- A loop whose round `i` adds `f i` adds them all.
loop-Adds :
    (m : ℕ) (f : ℕ → List PciDevice) (step : ℕ → List PciDevice → Option (List PciDevice))
    (loop : ℕ → ℕ → List PciDevice → Option (List PciDevice))
    → ((i : ℕ) (found : List PciDevice) → loop zero i found ≡ some found)
    → ((n i : ℕ) (found : List PciDevice)
        → loop (suc n) i found ≡ then_with (step i found) (loop n (suc i)))
    → ((i : ℕ) → i < m → Adds (step i) (f i))
    → (n i : ℕ) → i + n ≤ m
    → Adds (loop n i) (concat_from f n i)
unfolding concat_from
loop-Adds m f step loop base next adds zero i le found fits =
    base i found ∙ ap some (sym (append_nil found))
loop-Adds m f step loop base next adds (suc n) i le found fits =
    let rest = concat_from f n (suc i) in
    let same = append_assoc found (f i) rest in
    let all : length ((found ++ f i) ++ rest) ≤ 128 =
      subst (λ xs. length xs ≤ 128) (sym same) fits in
    let less : length (found ++ f i) ≤ 128 =
      omega (arith, all, length-append (found ++ f i) rest) in
    next n i found
    ∙ ap (λ o. then_with o (loop n (suc i))) (adds i (omega arith) found less)
    ∙ loop-Adds m f step loop base next adds n (suc i) (omega arith) (found ++ f i) all
    ∙ ap some same

-- The devices of a slot, and of a bus.
abbrev pub in_slot : (config : ℕ → ℕ) → (bus slot : ℕ) → List PciDevice
in_slot config bus slot = concat_from (answering config bus slot) 8 0

abbrev pub in_bus : (config : ℕ → ℕ) → (bus : ℕ) → List PciDevice
in_bus config bus = concat_from (in_slot config bus) 32 0

functions-Adds :
    (config : ℕ → ℕ) (bus slot : ℕ)
    → bus < 256
    → slot < 32
    → Adds (probe_functions config 8 bus slot 0) (in_slot config bus slot)
unfolding probe_functions
functions-Adds config bus slot a b =
    loop-Adds 8 (answering config bus slot) (probe_at config bus slot)
      (λ n i. probe_functions config n bus slot i) (λ i found. refl) (λ n i found. refl)
      (λ i c. probe_at-answering config bus slot i a b c) 8 0 (omega arith)

slots-Adds :
    (config : ℕ → ℕ) (bus : ℕ) → bus < 256 → Adds (probe_slots config 32 bus 0) (in_bus config bus)
unfolding probe_slots
slots-Adds config bus a =
    loop-Adds 32 (in_slot config bus) (λ slot. probe_functions config 8 bus slot 0)
      (λ n i. probe_slots config n bus i) (λ i found. refl) (λ n i found. refl)
      (λ i b. functions-Adds config bus i a b) 32 0 (omega arith)

-- `pci_probe` adds the devices of all buses, slots and functions whose first register has another
-- vendor than 0xffff, each once and in this order, with the numbers in that register, behind those
-- that were there, if all of them are no more than the 128 that the block has room for.
pub pci_probe-concat :
    (config : ℕ → ℕ) (found : List PciDevice)
    → length (found ++ concat_from (in_bus config) 256 0) ≤ 128
    → pci_probe config found ≡ some (found ++ concat_from (in_bus config) 256 0)
unfolding pci_probe
pci_probe-concat config found fits =
    loop-Adds 256 (in_bus config) (λ bus. probe_slots config 32 bus 0)
      (λ n i. probe_buses config n i) (λ i ds. refl) (λ n i ds. refl) (λ i a. slots-Adds config i a)
      256 0 (omega arith) found fits
