-- ===== src/Elf/Placed.antt =====
-- One segment in memory.
use piggy_os.Base.{
  ℕ, zero, suc, ◌+◌, ◌-◌, ◌*◌, ◌/◌, ◌^◌, ◌<◌, ◌≤◌, ◌≡◌, ◌⊎◌, inl, inr, refl, ap, ◌∙◌, arith, subst,
  Bool, true, false, Option, some, none, ltb, leb, ◌&&◌, if◌then◌else◌, if_true, if_false, add32,
  sub32, Bool-cases,
}
use piggy_os.Strings.{Memory, word_at, memcpy, memset}
use piggy_os.Strings.Copy.{memcpy-copies, memset-byte}
use piggy_os.Elf.{Image, Segment, segment_at, all_mapped, map_region, clear_rest, load_segment}

-- The bytes from `src` on stand at the segment's address, zeros behind them up to its size in memory,
-- and the rest of memory is as before.
pub record Placed (s : Segment) (src : ℕ) (before after : Memory) : Type 0 where
  pub file : (i : ℕ) → i < s.filesz → after (s.vaddr + i) ≡ before (src + i)
  pub zeros : (i : ℕ) → s.filesz ≤ i → i < s.memsz → after (s.vaddr + i) ≡ 0
  pub outside : (p : ℕ) → (p < s.vaddr) ⊎ (s.vaddr + s.memsz ≤ p) → after p ≡ before p

memset-end :
    (s : Segment) (mem : Memory) (p : ℕ)
    → s.filesz ≤ s.memsz
    → (if ltb 0 (s.memsz - s.filesz)
          then memset (s.vaddr + s.filesz) 0 (s.memsz - s.filesz) mem
          else mem)
        p
      ≡ (if leb (s.vaddr + s.filesz) p && ltb p (s.vaddr + s.memsz) then 0 else mem p)
memset-end s mem p le = elim (Bool-cases (ltb 0 (s.memsz - s.filesz))) [
  | inl h ↦
      ap (λ (m : Memory). m p) (if_true (ltb 0 (s.memsz - s.filesz)) _ mem h)
      ∙ ground (arith, memset-byte (s.vaddr + s.filesz) 0 (s.memsz - s.filesz) p mem)
  | inr h ↦ ap (λ (m : Memory). m p) (if_false (ltb 0 (s.memsz - s.filesz)) _ mem h) ∙ ground arith
]

-- What memory holds once both parts are written.
filled : Segment → (src : ℕ) → Memory → Memory
filled s src mem =
    let copied = memcpy s.vaddr src s.filesz mem in
    if ltb 0 (s.memsz - s.filesz)
    then memset (s.vaddr + s.filesz) 0 (s.memsz - s.filesz) copied
    else copied

filled-Placed :
    (s : Segment) (src : ℕ) (before : Memory)
    → s.filesz ≤ s.memsz
    → (s.vaddr ≤ src) ⊎ (src + s.filesz ≤ s.vaddr)
    → Placed s src before (filled s src before)
unfolding filled
filled-Placed s src before le apart =
    let copied = memcpy-copies s.vaddr src s.filesz before apart in
    let mem = memcpy s.vaddr src s.filesz before in
    record {
      file = λ i lt.
          memset-end s mem (s.vaddr + i) le
          ∙ if_false
              (leb (s.vaddr + s.filesz) (s.vaddr + i) && ltb (s.vaddr + i) (s.vaddr + s.memsz)) 0
              (mem (s.vaddr + i)) (ground arith)
          ∙ copied.0 i lt;
      zeros = λ i ge lt.
          memset-end s mem (s.vaddr + i) le
          ∙ if_true
              (leb (s.vaddr + s.filesz) (s.vaddr + i) && ltb (s.vaddr + i) (s.vaddr + s.memsz)) 0
              (mem (s.vaddr + i)) (ground arith);
      outside = λ p o.
          memset-end s mem p le
          ∙ if_false (leb (s.vaddr + s.filesz) p && ltb p (s.vaddr + s.memsz)) 0 (mem p)
              (beyond p o le)
          ∙ copied.1 p (around p o le);
    }
  where
    beyond :
        (p : ℕ)
        → (p < s.vaddr) ⊎ (s.vaddr + s.memsz ≤ p)
        → s.filesz ≤ s.memsz
        → (leb (s.vaddr + s.filesz) p && ltb p (s.vaddr + s.memsz)) ≡ false
    beyond p (inl h) le = ground arith
    beyond p (inr h) le = ground arith

    around :
        (p : ℕ)
        → (p < s.vaddr) ⊎ (s.vaddr + s.memsz ≤ p)
        → s.filesz ≤ s.memsz
        → (p < s.vaddr) ⊎ (s.vaddr + s.filesz ≤ p)
    around p (inl h) le = inl h
    around p (inr h) le = inr (omega arith)

all_mapped-of :
    (n p : ℕ) (mapped : ℕ → Bool)
    → ((q : ℕ) → p ≤ q → q < p + n → mapped (q / 4096) ≡ true)
    → all_mapped n p mapped ≡ true
all_mapped-of zero p mapped h = refl
all_mapped-of (suc n) p mapped h =
    rw (h p (omega arith) (omega arith))
      (all_mapped-of n (p + 1) mapped (λ q lo hi. h q (omega arith) (omega arith)))

map_region-old :
    (a b : ℕ) (mapped : ℕ → Bool) (page : ℕ)
    → mapped page ≡ true
    → map_region a b mapped page ≡ true
map_region-old a b mapped page e = rw e refl

map_region-new :
    (a b : ℕ) (mapped : ℕ → Bool) (page : ℕ)
    → a / 4096 ≤ page
    → page ≤ b / 4096
    → map_region a b mapped page ≡ true
map_region-new a b mapped page lo hi = elim (Bool-cases (mapped page)) [
  | inl e ↦ rw e refl
  | inr e ↦ ground arith
]

-- A word none of whose bytes was written.
word-same :
    (p dest n : ℕ) (before after : Memory)
    → (p + 4 ≤ dest) ⊎ (dest + n ≤ p)
    → ((x : ℕ) → (x < dest) ⊎ (dest + n ≤ x) → after x ≡ before x)
    → word_at after p ≡ word_at before p
word-same p dest n before after o same =
    let zero_add : p + 0 ≡ p = omega arith in
    omega (
      arith,
      subst (λ x. after x ≡ before x) zero_add (byte 0 (omega arith)),
      byte 1 (omega arith),
      byte 2 (omega arith),
      byte 3 (omega arith),
    )
  where
    side : (i : ℕ) → i < 4 → (p + 4 ≤ dest) ⊎ (dest + n ≤ p) → (p + i < dest) ⊎ (dest + n ≤ p + i)
    side i lt (inl h) = inl (omega arith)
    side i lt (inr h) = inr (omega arith)

    byte : (i : ℕ) → i < 4 → after (p + i) ≡ before (p + i)
    byte i lt = same (p + i) (side i lt o)

segment_at-same :
    (ph dest n : ℕ) (before after : Memory)
    → (ph + 32 ≤ dest) ⊎ (dest + n ≤ ph)
    → ((x : ℕ) → (x < dest) ⊎ (dest + n ≤ x) → after x ≡ before x)
    → segment_at ph after ≡ segment_at ph before
segment_at-same ph dest n before after o same =
    let zero_add : ph + 0 ≡ ph = omega arith in
    rw
      (
        subst (λ x. word_at after x ≡ word_at before x) zero_add (at 0 (omega arith)),
        at 4 (omega arith),
        at 8 (omega arith),
        at 16 (omega arith),
        at 20 (omega arith),
      )
      refl
  where
    side :
        (i : ℕ)
        → i < 24
        → (ph + 32 ≤ dest) ⊎ (dest + n ≤ ph)
        → (ph + i + 4 ≤ dest) ⊎ (dest + n ≤ ph + i)
    side i lt (inl h) = inl (omega arith)
    side i lt (inr h) = inr (omega arith)

    at : (i : ℕ) → i < 24 → word_at after (ph + i) ≡ word_at before (ph + i)
    at i lt = word-same (ph + i) dest n before after (side i lt o) same

-- A segment that ends below the kernel, whose bytes in the file are mapped and which lies apart from
-- them and from its header, and whose zeros end in the page where they begin.
pub record Loadable (s : Segment) (src ph : ℕ) (mapped : ℕ → Bool) : Type 0 where
  pub sizes : s.filesz ≤ s.memsz
  pub below : s.vaddr + s.memsz < 0xc0000000
  pub apart : (s.vaddr + s.memsz ≤ src) ⊎ (src + s.filesz ≤ s.vaddr)
  pub header : (ph + 32 ≤ s.vaddr) ⊎ (s.vaddr + s.memsz ≤ ph)
  pub source : (p : ℕ) → src ≤ p → p < src + s.filesz → mapped (p / 4096) ≡ true
  pub one_page : s.vaddr + s.memsz ≤ ((s.vaddr + s.filesz) / 4096 + 1) * 4096

clear_rest-filled :
    (s : Segment) (src : ℕ) (mem : Memory) (mapped : ℕ → Bool)
    → s.filesz ≤ s.memsz
    → s.memsz < 2 ^ 32
    → all_mapped (s.memsz - s.filesz) (s.vaddr + s.filesz) mapped ≡ true
    → clear_rest s (record { mem = memcpy s.vaddr src s.filesz mem; mapped = mapped })
      ≡ some (record { mem = filled s src mem; mapped = mapped })
unfolding filled
clear_rest-filled s src mem mapped le small all =
    let rest : sub32 s.memsz s.filesz ≡ s.memsz - s.filesz = omega arith in
    elim (Bool-cases (ltb 0 (s.memsz - s.filesz))) [
      | inl e ↦ rw (rest, e, all) refl
      | inr e ↦ rw (rest, e) refl
    ]

-- `load_segment` of a header that was read.
loaded : (offset ph : ℕ) → Image → Segment → Option Image
loaded offset ph im s =
    let mapped = map_region s.vaddr (add32 s.vaddr s.filesz) im.mapped in
    let mem = memcpy s.vaddr (offset + s.offset) s.filesz im.mem in
    if all_mapped s.filesz (offset + s.offset) mapped && all_mapped s.filesz s.vaddr mapped
    then clear_rest (segment_at ph mem) (record { mem = mem; mapped = mapped })
    else none

-- `elf_relocate` of one such segment.
pub load_segment-filled :
    (offset ph : ℕ) (s : Segment) (im : Image)
    → segment_at ph im.mem ≡ s
    → Loadable s (offset + s.offset) ph im.mapped
    → (im' : Image) × (load_segment offset ph im ≡ some im')
      × Placed s (offset + s.offset) im.mem im'.mem
unfolding load_segment loaded
load_segment-filled offset ph s im at l =
    let src = offset + s.offset in
    let end = add32 s.vaddr s.filesz in
    let mapped = map_region s.vaddr end im.mapped in
    let mem = memcpy s.vaddr src s.filesz im.mem in
    let whole : end ≡ s.vaddr + s.filesz = omega (arith, l.sizes, l.below) in
    let new = λ (q : ℕ) (lo : s.vaddr ≤ q) (hi : q < s.vaddr + s.memsz).
      map_region-new s.vaddr end im.mapped (q / 4096) (omega arith)
        (omega (arith, whole, l.one_page)) in
    let from =
      all_mapped-of s.filesz src mapped
        (λ q lo hi. map_region-old s.vaddr end im.mapped (q / 4096) (l.source q lo hi)) in
    let to = all_mapped-of s.filesz s.vaddr mapped (λ q lo hi. new q lo (omega (arith, l.sizes))) in
    let rest =
      all_mapped-of (s.memsz - s.filesz) (s.vaddr + s.filesz) mapped
        (λ q lo hi. new q (omega arith) (omega (arith, l.sizes))) in
    let same =
      segment_at-same ph s.vaddr s.filesz im.mem mem (header_apart l.header l.sizes)
        (memcpy-copies s.vaddr src s.filesz im.mem (source_apart l.apart l.sizes)).1 in
    (
      record { mem = filled s src im.mem; mapped = mapped },
      ap (λ t. loaded offset ph im t) at
          ∙ if_true (all_mapped s.filesz src mapped && all_mapped s.filesz s.vaddr mapped) _ none
              (both from to)
          ∙ ap (λ t. clear_rest t (record { mem = mem; mapped = mapped })) (same ∙ at)
          ∙ clear_rest-filled s src im.mem mapped l.sizes (omega (arith, l.below)) rest,
      filled-Placed s src im.mem l.sizes (source_apart l.apart l.sizes),
    )
  where
    both : {a b : Bool} → a ≡ true → b ≡ true → (a && b) ≡ true
    both x y = rw (x, y) refl

    header_apart :
        (ph + 32 ≤ s.vaddr) ⊎ (s.vaddr + s.memsz ≤ ph)
        → s.filesz ≤ s.memsz
        → (ph + 32 ≤ s.vaddr) ⊎ (s.vaddr + s.filesz ≤ ph)
    header_apart (inl h) le = inl h
    header_apart (inr h) le = inr (omega arith)

    source_apart :
        (s.vaddr + s.memsz ≤ offset + s.offset) ⊎ (offset + s.offset + s.filesz ≤ s.vaddr)
        → s.filesz ≤ s.memsz
        → (s.vaddr ≤ offset + s.offset) ⊎ (offset + s.offset + s.filesz ≤ s.vaddr)
    source_apart (inl h) le = inl (omega arith)
    source_apart (inr h) le = inr h
