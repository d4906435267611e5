-- ===== src/Strings/Copy.antt =====
-- `memcpy`, `memset`, `strcpy` and `strncpy`.
use piggy_os.Base.{
  ℕ, zero, suc, ◌+◌, ◌<◌, ◌≤◌, ◌≡◌, ◌⊎◌, refl, ap, ◌∙◌, List, [], ◌∷◌, arith, some, ◌==◌, leb, ◌&&◌,
  ltb, if◌then◌else◌, length, if_true, inl, u8, update, update_ne,
}
use piggy_os.Strings.{Memory, memcpy, memset, strcpy, copy_of}
use piggy_os.Strings.Compare.{HasString, strlen-length}

-- Nothing outside of the destination changes.
memcpy-outside :
    (dest src n x : ℕ) (mem : Memory)
    → (x < dest) ⊎ (dest + n ≤ x)
    → memcpy dest src n mem x ≡ mem x
unfolding memcpy
memcpy-outside dest src zero x mem o = refl
memcpy-outside dest src (suc n) x mem o =
    memcpy-outside (dest + 1) (src + 1) n x (update mem dest (mem src)) (omega arith)
    ∙ update_ne mem dest (mem src) (λ e. omega arith)

memcpy-inside :
    (dest src n i : ℕ) (mem : Memory)
    → i < n
    → (dest ≤ src) ⊎ (src + n ≤ dest)
    → memcpy dest src n mem (dest + i) ≡ mem (src + i)
unfolding memcpy
memcpy-inside dest src zero i mem h o = absurd (omega arith)
memcpy-inside dest src (suc n) zero mem h o =
    memcpy-outside (dest + 1) (src + 1) n (dest + 0) (update mem dest (mem src)) (inl (omega arith))
    ∙ if_true (dest == dest + 0) (mem src) (mem (dest + 0)) (ground arith)
    ∙ ap mem (omega arith)
memcpy-inside dest src (suc n) (suc i) mem h o =
    let mem' = update mem dest (mem src) in
    let rest = memcpy-inside (dest + 1) (src + 1) n i mem' (omega arith) (omega arith) in
    ap (memcpy (dest + 1) (src + 1) n mem') (omega arith)
    ∙ rest
    ∙ update_ne mem dest (mem src) (λ e. omega arith)
    ∙ ap mem (omega arith)

-- `memcpy` to a lower address, or to bytes apart from the source, copies `n` bytes as they were and
-- changes no other byte.
pub memcpy-copies :
    (dest src n : ℕ) (mem : Memory)
    → (dest ≤ src) ⊎ (src + n ≤ dest)
    → ((i : ℕ) → i < n → memcpy dest src n mem (dest + i) ≡ mem (src + i))
      × ((x : ℕ) → (x < dest) ⊎ (dest + n ≤ x) → memcpy dest src n mem x ≡ mem x)
memcpy-copies dest src n mem o =
    ((λ i h. memcpy-inside dest src n i mem h o), λ x p. memcpy-outside dest src n x mem p)

-- `memset` writes the low byte of its argument to `n` bytes and to no other one.
pub memset-byte :
    (s c n x : ℕ) (mem : Memory)
    → memset s c n mem x ≡ (if leb s x && ltb x (s + n) then u8 c else mem x)
unfolding memset
memset-byte s c zero x mem = ground arith
memset-byte s c (suc n) x mem = ground (arith, memset-byte (s + 1) c n x (update mem s (u8 c)))

moved-HasString :
    (p q : ℕ) (mem mem' : Memory) (cs : List ℕ)
    → HasString mem q cs
    → ((i : ℕ) → i < suc (length cs) → mem' (p + i) ≡ mem (q + i))
    → HasString mem' p cs
moved-HasString p q mem mem' [] a h =
    ap mem' (omega arith) ∙ h 0 (omega arith) ∙ ap mem (omega arith) ∙ a
moved-HasString p q mem mem' (c ∷ cs) a h = (
  ap mem' (omega arith) ∙ h 0 (omega arith) ∙ ap mem (omega arith) ∙ a.0,
  a.1,
  moved-HasString (p + 1) (q + 1) mem mem' cs a.2
      (λ i k. ap mem' (omega arith) ∙ h (suc i) (omega arith) ∙ ap mem (omega arith)),
)

-- `strcpy` of a string, to a lower address or to bytes apart from it, ends, given more rounds than
-- the string has bytes, and leaves that string at the destination.
pub strcpy-HasString :
    (fuel dest src : ℕ) (mem : Memory) (cs : List ℕ)
    → HasString mem src cs
    → length cs < fuel
    → (dest ≤ src) ⊎ (src + (length cs + 1) ≤ dest)
    → (mem' : Memory) × (strcpy fuel dest src mem ≡ some mem') × HasString mem' dest cs
unfolding strcpy
strcpy-HasString fuel dest src mem cs a h o =
    let n = length cs + 1 in
    (
      memcpy dest src n mem,
      ap (λ len. copy_of dest src len mem) (strlen-length fuel src mem cs a h),
      moved-HasString dest src mem (memcpy dest src n mem) cs a
          (λ i k. memcpy-inside dest src n i mem (omega arith) o),
    )
