-- ===== src/Pmm/Init/Start.antt =====
-- The state that `pmm_init` leaves behind.
use piggy_os.Base.{
  ℕ, zero, suc, ◌+◌, ◌-◌, ◌≤◌, ◌<◌, ◌/◌, ◌*◌, ◌%◌, ◌^◌, ◌≡◌, sym, false, some, List, [], ◌∷◌, arith,
  ltb, length, add32,
}
use native.Mathlib.Nat.{div-add-mod'}
use piggy_os.Base.Bits.{bit-zero}
use piggy_os.Base.Count.{count_none}
use piggy_os.Multiboot.{Memory, type_of, tag_module, tag_basic_meminfo, next_tag}
use piggy_os.Multiboot.Tags.{IsChain, first_of_type, mboot2_find_tag-first}
use piggy_os.Pmm.{Pmm}
use piggy_os.Pmm.Scan.{bit_of}
use piggy_os.Pmm.Valid.{taken, covered, IsValid}
use piggy_os.Pmm.Init.{
  kern_base, align_to, after_tag, modules_end, zero_bytes, Init, done, limit, bitmap_start, fresh,
  set_up, pmm_init,
}

-- The modules among the tags `ts`, the end tag left out, end at or before `bound`: `mod_end` is the
-- fourth word of a tag.
abbrev pub ModulesBelow : Memory → (bound : ℕ) → List ℕ → Type 0
ModulesBelow mem bound [] = Unit
ModulesBelow mem bound (a ∷ []) = Unit
ModulesBelow mem bound (a ∷ b ∷ ts) =
    (type_of mem a ≡ tag_module → mem (add32 a 12) ≤ bound) × ModulesBelow mem bound (b ∷ ts)

-- What the loop computes from `acc` on.
unfoldable end_of_modules : Memory → ℕ → List ℕ → ℕ
end_of_modules mem acc [] = acc
end_of_modules mem acc (a ∷ []) = acc
end_of_modules mem acc (a ∷ b ∷ ts) = end_of_modules mem (after_tag mem a acc) (b ∷ ts)

-- The state is empty, above the kernel and the modules, and as large as the memory reported.
pub record Started (mem : Memory) (tags : List ℕ) (kernel_end lower upper : ℕ) (s : Pmm)
    : Type 0 where
  pub valid : IsValid s
  pub all_free : (b : ℕ) → b < covered s → taken s b ≡ false
  pub none_used : s.used_blocks ≡ 0
  pub above_kernel : kernel_end + kern_base ≤ s.pmm_bitmap
  pub above_modules : ModulesBelow mem (s.pmm_bitmap - kern_base) tags
  pub aligned : s.pmm_bitmap % 4 ≡ 0
  pub blocks : s.max_blocks ≡ (lower + upper) / 4

abbrev pub IsStarted : Memory → List ℕ → (kernel_end lower upper : ℕ) → Init → Type 0
IsStarted mem tags kernel_end lower upper (done s) = Started mem tags kernel_end lower upper s
IsStarted _ _ _ _ _ _ = ⊥

modules_end_lem :
    (fuel : ℕ) (mem : Memory) (t acc a b : ℕ) (ts : List ℕ)
    → IsChain mem t (a ∷ b ∷ ts)
    → length (a ∷ b ∷ ts) ≤ fuel
    → modules_end fuel mem t acc ≡ some (end_of_modules mem acc (a ∷ b ∷ ts))
unfolding modules_end end_of_modules
modules_end_lem zero mem t acc a b ts c h = absurd (omega arith)
modules_end_lem (suc fuel) mem t acc a b [] c h = ground arith
modules_end_lem (suc fuel) mem t acc a b (d ∷ ts) c h = ground (
  arith,
  modules_end_lem fuel mem (next_tag mem t) (after_tag mem t acc) b d ts (rw (sym c.0) c.2)
      (omega arith),
)

-- The loop's answer is no lower than where it begins, nor than the end of any module, and below any
-- bound that all of these are below.
end_of_modules-above :
    (mem : Memory) (acc : ℕ) (ts : List ℕ)
    → (acc ≤ end_of_modules mem acc ts) × ModulesBelow mem (end_of_modules mem acc ts) ts
unfolding end_of_modules
end_of_modules-above mem acc [] = (omega arith, tt)
end_of_modules-above mem acc (a ∷ []) = (omega arith, tt)
end_of_modules-above mem acc (a ∷ b ∷ ts) =
    let rest = end_of_modules-above mem (after_tag mem a acc) (b ∷ ts) in
    let (low, high) = after_tag_lem mem a acc in
    (omega (arith, low, rest.0), ((λ m. omega (arith, high m, rest.0)), rest.1))
  where
    after_tag_lem :
        (m : Memory) (t lower : ℕ)
        → (lower ≤ after_tag m t lower)
          × (type_of m t ≡ tag_module → m (add32 t 12) ≤ after_tag m t lower)
    after_tag_lem m t lower = unfold after_tag in ground arith

end_of_modules-below :
    (mem : Memory) (acc bound : ℕ) (ts : List ℕ)
    → acc ≤ bound
    → ModulesBelow mem bound ts
    → end_of_modules mem acc ts ≤ bound
unfolding end_of_modules after_tag
end_of_modules-below mem acc bound [] le m = le
end_of_modules-below mem acc bound (a ∷ []) le m = le
end_of_modules-below mem acc bound (a ∷ b ∷ ts) le m =
    end_of_modules-below mem (after_tag mem a acc) bound (b ∷ ts) (ground (arith, m.0)) m.1

ModulesBelow-up :
    (mem : Memory) (bound higher : ℕ) (ts : List ℕ)
    → bound ≤ higher
    → ModulesBelow mem bound ts
    → ModulesBelow mem higher ts
ModulesBelow-up mem bound higher [] le m = tt
ModulesBelow-up mem bound higher (a ∷ []) le m = tt
ModulesBelow-up mem bound higher (a ∷ b ∷ ts) le m =
    ((λ e. omega (arith, m.0 e)), ModulesBelow-up mem bound higher (b ∷ ts) le m.1)

align_to_lem : (n : ℕ) → n + 4 ≤ 2 ^ 32 → (n ≤ align_to n 4) × (align_to n 4 % 4 ≡ 0)
unfolding align_to
align_to_lem n h = ground arith

module _ (size : ℕ) (words : ℕ → ℕ) where
  zero_bytes_whole : (i : ℕ) → 4 * i + 4 ≤ size → zero_bytes size words i ≡ 0
  unfolding zero_bytes
  zero_bytes_whole i h = ground arith

  div-mul-le : (a m : ℕ) → a / m * m ≤ a
  div-mul-le a m = omega (arith, div-add-mod' a m)

  zero_bytes-lt : ((i : ℕ) → words i < 2 ^ 32) → (i : ℕ) → zero_bytes size words i < 2 ^ 32
  unfolding zero_bytes
  zero_bytes-lt h i = ground (arith, h i, div-mul-le (words i) (2 ^ (8 * (size - 4 * i))))

  zero_bytes-bit : (b : ℕ) → 4 * (b / 32) + 4 ≤ size → bit_of (zero_bytes size words) b ≡ false
  zero_bytes-bit b h = rw (zero_bytes_whole (b / 32) h, bit-zero)

fresh-Started :
    (ram : ℕ → ℕ → ℕ) (mem : Memory) (tags : List ℕ) (s : Pmm) (kernel_end last addr size place : ℕ)
    → ((p i : ℕ) → ram p i < 2 ^ 32)
    → s.used_blocks ≡ 0
    → size < 2 ^ 32
    → kernel_end ≤ addr
    → last ≤ addr
    → ModulesBelow mem last tags
    → addr + kern_base ≤ place
    → place % 4 ≡ 0
    → (lower upper : ℕ) → size ≡ (lower + upper) * 1024
    → Started mem tags kernel_end lower upper (fresh ram s addr size place)
unfolding fresh
fresh-Started ram mem tags s kernel_end last addr size place sane unused small a b below above four
      lower upper e =
    record {
      valid = record {
        words = zero_bytes-lt (size / 4096 / 8) (ram place) (sane place);
        few = omega arith;
        counted = omega (arith, unused, count_none _ (size / 4096 / 32 * 32) free);
      };
      all_free = free;
      none_used = unused;
      above_kernel = omega arith;
      above_modules = ModulesBelow-up mem last (place - kern_base) tags (omega arith) below;
      aligned = four;
      blocks = omega arith;
    }
  where
    free :
        (k : ℕ)
        → k < size / 4096 / 32 * 32
        → bit_of (zero_bytes (size / 4096 / 8) (ram place)) k ≡ false
    free k lt = zero_bytes-bit (size / 4096 / 8) (ram place) k (omega arith)

bitmap_start-bounds :
    (kernel_end last : ℕ)
    → kernel_end < 2 ^ 30 - 4
    → last < 2 ^ 30 - 4
    → let addr = bitmap_start kernel_end last in
      (kernel_end ≤ addr) × (last ≤ addr) × (addr < 2 ^ 30 - 4)
unfolding bitmap_start
bitmap_start-bounds kernel_end last h k = ground arith

set_up-Started :
    (ram : ℕ → ℕ → ℕ) (mem : Memory) (tags : List ℕ) (s : Pmm) (kernel_end last meminfo : ℕ)
    → ModulesBelow mem last tags
    → ((p i : ℕ) → ram p i < 2 ^ 32)
    → s.used_blocks ≡ 0
    → kernel_end < 2 ^ 30 - 4
    → last < 2 ^ 30 - 4
    → mem (add32 meminfo 8) + mem (add32 meminfo 12) < 2 ^ 22
    → IsStarted mem tags kernel_end
        (mem (add32 meminfo 8))
        (mem (add32 meminfo 12))
        (set_up kernel_end ram mem s last meminfo)
unfolding set_up
set_up-Started ram mem tags s kernel_end last meminfo below sane unused h k small =
    let (a, b, c) = bitmap_start-bounds kernel_end last h k in
    let addr = bitmap_start kernel_end last in
    let fits : ltb limit addr ≡ false = ground arith in
    let (above, four) = align_to_lem (add32 addr kern_base) (omega arith) in
    rw fits (
      fresh-Started ram mem tags s kernel_end last addr _ (align_to (add32 addr kern_base) 4) sane
        unused (omega arith) a b below (omega arith) four (mem (add32 meminfo 8))
        (mem (add32 meminfo 12)) (omega arith))

-- On a well-formed list of tags that does not begin with its end tag, for a kernel and modules, and
-- an address in `bitmap_addr`, that end below 1 GiB, and less than 4 GiB of memory, `pmm_init` returns
-- (it neither panics nor runs on past the tags): every block that `pmm_alloc_block` can find is free,
-- the bitmap stands `KERN_BASE` above the end of the kernel and the `mod_end` of every module, or
-- higher, and there is a block for every 4 KiB reported.
pub pmm_init-IsStarted :
    (fuel kernel_end : ℕ) (ram : ℕ → ℕ → ℕ) (mem : Memory) (mb2 : ℕ) (s : Pmm) (a b : ℕ)
    (ts : List ℕ)
    → let tags = a ∷ b ∷ ts in
      let meminfo = first_of_type mem tag_basic_meminfo tags in
      IsChain mem (add32 mb2 8) tags
      → length tags ≤ fuel
      → ((p i : ℕ) → ram p i < 2 ^ 32)
      → s.used_blocks ≡ 0
      → kernel_end < 2 ^ 30 - 4
      → s.bitmap_addr < 2 ^ 30 - 4
      → ModulesBelow mem (2 ^ 30 - 5) tags
      → mem (add32 meminfo 8) + mem (add32 meminfo 12) < 2 ^ 22
      → IsStarted mem tags kernel_end
          (mem (add32 meminfo 8))
          (mem (add32 meminfo 12))
          (pmm_init fuel kernel_end ram mem mb2 s)
unfolding pmm_init
pmm_init-IsStarted fuel kernel_end ram mem mb2 s a b ts chain enough sane unused h k low small =
    rw
      (
        modules_end_lem fuel mem (add32 mb2 8) s.bitmap_addr a b ts chain enough,
        mboot2_find_tag-first fuel mem mb2 tag_basic_meminfo (a ∷ b ∷ ts) chain enough,
      )
      (set_up-Started ram mem (a ∷ b ∷ ts) s kernel_end _ _
        (end_of_modules-above mem s.bitmap_addr (a ∷ b ∷ ts)).1 sane unused h
        (omega (
          arith,
          end_of_modules-below mem s.bitmap_addr (2 ^ 30 - 5) (a ∷ b ∷ ts) (omega arith) low,
        ))
        small)
