-- ===== src/Pci/Tests.antt =====
-- Runs of the search for devices.
use piggy_os.Base.{
  ℕ, zero, suc, ◌+◌, ◌*◌, ◌/◌, ◌^◌, ◌<◌, ◌≤◌, ◌≡◌, ◌≢◌, ◌⊎◌, inl, inr, refl, sym, subst, arith,
  List, [], ◌++◌, some, ◌==◌, leb, if◌then◌else◌, length, length-append, Bool-cases, ==_iff,
}
use piggy_os.Pci.{
  PciDevice, read_address, write_address, pci_probe, pci_read_word, pci_check_vendor,
}
use piggy_os.Pci.Address.{read_address-fields, write_address-one}
use piggy_os.Pci.Probe.{concat_from, answering, in_slot, in_bus, pci_probe-concat}

-- One device, on bus 0 in slot 3: the vendor 0x8086 and the device 0x1237.
abbrev one_device : ℕ → ℕ
one_device a = if a == 0x80001800 then 0x12378086 else 0xffffffff

read_address-fields_run :
    read_address 0 3 0 2 ≡ 2 ^ 31 + 0 * 2 ^ 16 + 3 * 2 ^ 11 + 0 * 2 ^ 8 + 2 / 4 * 4
read_address-fields_run =
    read_address-fields 0 3 0 2 (omega arith) (omega arith) (omega arith) (omega arith)

write_address-one_run : write_address 0 3 0 4 ≡ 1
write_address-one_run = write_address-one 0 3 0 4

-- If all lists but that of number `k` are empty, they have no more devices than that one.
single :
    (f : ℕ → List PciDevice) (m k c : ℕ)
    → ((j : ℕ) → j < m → j ≢ k → length (f j) ≡ 0)
    → length (f k) ≤ c
    → (n i : ℕ) → i + n ≤ m
    → length (concat_from f n i) ≤ (if leb i k then c else 0)
unfolding concat_from
single f m k c others small zero i le = omega arith
single f m k c others small (suc n) i le =
    let rest = single f m k c others small n (suc i) (omega arith) in
    let both = length-append (f i) (concat_from f n (suc i)) in
    elim (Bool-cases (i == k)) [
      | inl e ↦
          let at : i ≡ k = (==_iff i k).0 e in
          let here : length (f i) ≤ c = subst (λ j. length (f j) ≤ c) (sym at) small in
          ground (arith, rest, both, here, at)
      | inr e ↦ ground (arith, rest, both, others i (omega arith) (λ q. ground arith))
    ]

silent :
    (bus slot function : ℕ)
    → slot < 32
    → function < 8
    → (bus ≢ 0) ⊎ ((slot ≢ 3) ⊎ (function ≢ 0))
    → length (answering one_device bus slot function) ≡ 0
silent bus slot function a b (inl h) = ground arith
silent bus slot function a b (inr (inl h)) = ground arith
silent bus slot function a b (inr (inr h)) = ground arith

-- No slot has more than one device, and none but slot 3 of bus 0 has one.
silent_slot :
    (bus slot : ℕ) → slot < 32 → (bus ≢ 0) ⊎ (slot ≢ 3) → length (in_slot one_device bus slot) ≡ 0
silent_slot bus slot a h =
    let all =
      single (answering one_device bus slot) 8 0 0
        (λ j lt ne. silent bus slot j a lt (inr (inr ne))) (first h) 8 0 (omega arith) in
    omega (arith, all)
  where
    first : (bus ≢ 0) ⊎ (slot ≢ 3) → length (answering one_device bus slot 0) ≤ 0
    first (inl ne) = omega (arith, silent bus slot 0 a (omega arith) (inl ne))
    first (inr ne) = omega (arith, silent bus slot 0 a (omega arith) (inr (inl ne)))

silent_bus : (bus : ℕ) → bus ≢ 0 → length (in_bus one_device bus) ≡ 0
silent_bus bus h =
    let all =
      single (in_slot one_device bus) 32 0 0 (λ j lt ne. silent_slot bus j lt (inl h))
        (omega (arith, silent_slot bus 0 (omega arith) (inl h))) 32 0 (omega arith) in
    omega (arith, all)

slot_three : length (in_slot one_device 0 3) ≤ 1
slot_three =
    let all =
      single (answering one_device 0 3) 8 0 1
        (λ j lt ne. silent 0 3 j (omega arith) lt (inr (inr ne))) (omega arith) 8 0 (omega arith) in
    omega (arith, all)

one_found : length ([] ++ concat_from (in_bus one_device) 256 0) ≤ 128
one_found =
    let bus_zero =
      single (in_slot one_device 0) 32 3 1 (λ j lt ne. silent_slot 0 j lt (inr ne)) slot_three 32 0
        (omega arith) in
    let all =
      single (in_bus one_device) 256 0 1 (λ j lt ne. silent_bus j ne) (omega (arith, bus_zero)) 256
        0 (omega arith) in
    omega (arith, all)

pci_probe-concat_example :
    pci_probe one_device [] ≡ some ([] ++ concat_from (in_bus one_device) 256 0)
pci_probe-concat_example = pci_probe-concat one_device [] one_found

vendor : pci_read_word one_device 0 3 0 0 ≡ 0x8086
unfolding pci_read_word
vendor = refl

device : pci_read_word one_device 0 3 0 2 ≡ 0x1237
unfolding pci_read_word
device = refl

-- `pciCheckVendor` answers 0 for the device that is there.
there : pci_check_vendor one_device 0 3 ≡ 0
unfolding pci_check_vendor pci_read_word
there = refl
