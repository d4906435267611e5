-- ===== src/Multiboot/Tests.antt =====
-- Runs of the tag walk on a small list of tags.
use piggy_os.Base.{◌+◌, ◌*◌, ◌/◌, ◌≡◌, refl, some, [], ◌∷◌, arith, ◌==◌, if◌then◌else◌}
use piggy_os.Multiboot.{Memory, next_tag, mboot2_find_tag, tag_module}
use piggy_os.Multiboot.Tags.{IsChain, first_of_type, mboot2_find_tag-first, next_tag-aligned}

-- A tag of type 1 with 17 bytes at address 8, a module tag behind it, then the end tag.
abbrev tag_words : Memory
tag_words a =
    if a == 8
    then 1
    else if a == 12
    then 17
    else if a == 32
    then 3
    else if a == 36
    then 16
    else if a == 52
    then 8
    else 0

tag_words-IsChain : IsChain tag_words 8 (8 ∷ 32 ∷ 48 ∷ [])
unfolding next_tag
tag_words-IsChain = (refl, ground arith, (refl, ground arith, (refl, refl)))

mboot2_find_tag-first_run :
    mboot2_find_tag 3 tag_words 0 tag_module
    ≡ some (first_of_type tag_words tag_module (8 ∷ 32 ∷ 48 ∷ []))
mboot2_find_tag-first_run =
    mboot2_find_tag-first 3 tag_words 0 tag_module (8 ∷ 32 ∷ 48 ∷ []) tag_words-IsChain
      (omega arith)

found : mboot2_find_tag 3 tag_words 0 tag_module ≡ some 32
unfolding mboot2_find_tag next_tag
found = refl

next_tag-aligned_run : next_tag tag_words 8 ≡ 8 + (17 + 7) / 8 * 8
next_tag-aligned_run = next_tag-aligned tag_words 8 (omega arith) (omega arith)
