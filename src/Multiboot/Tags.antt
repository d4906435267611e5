-- ===== src/Multiboot/Tags.antt =====
-- `mboot2_find_tag` on a well-formed list of tags.
use piggy_os.Base.{
  ℕ, zero, suc, ◌+◌, ◌≤◌, ◌<◌, ◌/◌, ◌*◌, ◌^◌, ◌≡◌, ◌≢◌, some, List, [], ◌∷◌, arith, ◌==◌,
  if◌then◌else◌, length, add32,
}
use piggy_os.Base.Bits.{bit_and-high_mask}
use piggy_os.Multiboot.{Memory, type_of, size_of, tag_end, next_tag, find_from, mboot2_find_tag}

-- From address `t` the tags stand at the addresses `ts`, the last of them the end tag.
abbrev pub IsChain : Memory → ℕ → List ℕ → Type 0
IsChain mem t [] = ⊥
IsChain mem t (a ∷ []) = (a ≡ t) × (type_of mem a ≡ tag_end)
IsChain mem t (a ∷ b ∷ ts) =
    (a ≡ t) × (type_of mem a ≢ tag_end) × IsChain mem (next_tag mem a) (b ∷ ts)

-- The address of the first tag of a type, 0 if there is none.
unfoldable pub first_of_type : Memory → ℕ → List ℕ → ℕ
first_of_type mem wanted [] = 0
first_of_type mem wanted (a ∷ ts) =
    if type_of mem a == wanted then a else first_of_type mem wanted ts

find_from-first :
    (fuel : ℕ) (mem : Memory) (wanted t : ℕ) (ts : List ℕ)
    → IsChain mem t ts
    → length ts ≤ fuel
    → find_from fuel mem t wanted ≡ some (first_of_type mem wanted ts)
unfolding find_from first_of_type
find_from-first fuel mem wanted t [] c h = absurd c
find_from-first zero mem wanted t (a ∷ ts) c h = absurd (omega arith)
find_from-first (suc fuel) mem wanted t (a ∷ []) c h = ground arith
find_from-first (suc fuel) mem wanted t (a ∷ b ∷ ts) c h =
    ground (arith, find_from-first fuel mem wanted (next_tag mem a) (b ∷ ts) c.2 (omega arith))

-- On a list of tags that ends in an end tag, with as much fuel as there are tags,
-- `mboot2_find_tag` returns the first tag of the type asked for, or NULL if there is none.
pub mboot2_find_tag-first :
    (fuel : ℕ) (mem : Memory) (mb2 wanted : ℕ) (ts : List ℕ)
    → IsChain mem (add32 mb2 8) ts
    → length ts ≤ fuel
    → mboot2_find_tag fuel mem mb2 wanted ≡ some (first_of_type mem wanted ts)
unfolding mboot2_find_tag
mboot2_find_tag-first fuel mem mb2 wanted ts c h =
    find_from-first fuel mem wanted (add32 mb2 8) ts c h

-- A tag is followed by the next multiple of 8 behind its size, if neither sum wraps.
pub next_tag-aligned :
    (mem : Memory) (tag : ℕ)
    → size_of mem tag + 7 < 2 ^ 32
    → tag + size_of mem tag + 7 < 2 ^ 32
    → next_tag mem tag ≡ tag + (size_of mem tag + 7) / 8 * 8
unfolding next_tag
next_tag-aligned mem tag small fits =
    let mask = bit_and-high_mask 3 29 (add32 (size_of mem tag) 7) (omega arith) in
    omega (arith, mask)
