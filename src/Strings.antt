-- ===== src/Strings.antt =====
-- kernel/utils/string.c: functions on bytes in memory. A pointer that goes past the last address is
-- undefined in C, so addresses are added without a wrap-around.
pub mod Compare
pub mod Copy
mod Tests
use piggy_os.Base.{
  ℕ, zero, suc, ◌+◌, ◌-◌, ◌*◌, ◌%◌, ◌^◌, Bool, true, false, Option, none, some, ◌==◌, ltb,
  if◌then◌else◌, u8, update,
}

-- The byte at each address.
abbrev pub Memory : Type 0
Memory = ℕ → ℕ

-- The `int` −1.
abbrev pub minus_one : ℕ
minus_one = 2 ^ 32 - 1

-- The `uint32_t` at an address, low byte first.
abbrev pub word_at : Memory → ℕ → ℕ
word_at mem p = mem p + mem (p + 1) * 2 ^ 8 + mem (p + 2) * 2 ^ 16 + mem (p + 3) * 2 ^ 24

-- The loop of `memcmp`, with `len` rounds left.
unfoldable pub memcmp_from : (len p q : ℕ) → Memory → ℕ
memcmp_from zero p q mem = 0
memcmp_from (suc len) p q mem =
    let rest = memcmp_from len (p + 4) (q + 4) mem in
    if word_at mem p == word_at mem q
    then rest
    else if ltb (word_at mem q) (word_at mem p)
    then 1
    else minus_one

-- `len` is not negative.
unfoldable pub memcmp : (s1 s2 len : ℕ) → Memory → ℕ
unfolding memcmp_from
memcmp s1 s2 len mem = if s1 == s2 then 0 else memcmp_from len s1 s2 mem

-- `rep movsb` with the direction flag clear.
unfoldable pub memcpy : (dest src count : ℕ) → Memory → Memory
memcpy dest src zero mem = mem
memcpy dest src (suc count) mem = memcpy (dest + 1) (src + 1) count (update mem dest (mem src))

unfoldable pub memset : (s c n : ℕ) → Memory → Memory
memset s c zero mem = mem
memset s c (suc n) mem = memset (s + 1) c n (update mem s (u8 c))

-- On `fuel` rounds; `none` where they run out.
pub strcmp : ℕ → (str1 str2 : ℕ) → Memory → Option ℕ
strcmp zero str1 str2 mem = none
strcmp (suc fuel) str1 str2 mem =
    let rest = strcmp fuel (str1 + 1) (str2 + 1) mem in
    if mem str1 == mem str2
    then (if mem str1 == 0 then some 0 else rest)
    else some (if ltb (mem str1) (mem str2) then minus_one else 1)

-- The loop of `strlen` from index `i` on.
pub strlen_from : ℕ → (str i : ℕ) → Memory → Option ℕ
strlen_from zero str i mem = none
strlen_from (suc fuel) str i mem =
    let rest = strlen_from fuel str (i + 1) mem in if mem (str + i) == 0 then some i else rest

unfoldable pub strlen : ℕ → (str : ℕ) → Memory → Option ℕ
unfolding strlen_from
strlen fuel str mem = strlen_from fuel str 0 mem

abbrev pub copy_of : (str1 str2 : ℕ) → Option ℕ → Memory → Option Memory
copy_of str1 str2 none mem = none
copy_of str1 str2 (some len) mem = some (memcpy str1 str2 (len + 1) mem)

unfoldable pub strcpy : ℕ → (str1 str2 : ℕ) → Memory → Option Memory
unfolding strlen memcpy
strcpy fuel str1 str2 mem = copy_of str1 str2 (strlen fuel str2 mem) mem

-- The answer is the address behind the last byte written.
pub strncpy : (dst src n : ℕ) → Memory → ℕ × Memory
strncpy dst src zero mem = (dst, mem)
strncpy dst src (suc n) mem =
    let mem' = update mem dst (mem src) in
    let rest = strncpy (dst + 1) (src + 1) n mem' in if mem src == 0 then (dst + 1, mem') else rest
