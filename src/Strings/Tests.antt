-- ===== src/Strings/Tests.antt =====
-- Runs of string.c on a few bytes.
use piggy_os.Base.{
  ℕ, ◌+◌, ◌<◌, ◌≤◌, ◌≡◌, ◌⊎◌, ◌↔◌, refl, [], ◌∷◌, arith, some, ◌==◌, if◌then◌else◌, inl, inr,
}
use piggy_os.Strings.{Memory, memcmp, memcpy, memset, strcmp, strlen, strcpy}
use piggy_os.Strings.Compare.{HasString, SameWords, order, strcmp-order, strlen-length, memcmp-zero}
use piggy_os.Strings.Copy.{memcpy-copies, memset-byte, strcpy-HasString}

-- "ab" at 10 and "ac" at 20.
abbrev bytes : Memory
bytes p =
    if p == 10
    then 97
    else if p == 11
    then 98
    else if p == 20
    then 97
    else if p == 21
    then 99
    else 0

ab-HasString : HasString bytes 10 (97 ∷ 98 ∷ [])
ab-HasString = (refl, omega arith, (refl, omega arith, refl))

ac-HasString : HasString bytes 20 (97 ∷ 99 ∷ [])
ac-HasString = (refl, omega arith, (refl, omega arith, refl))

strcmp-order_run : strcmp 3 10 20 bytes ≡ some (order (97 ∷ 98 ∷ []) (97 ∷ 99 ∷ []))
strcmp-order_run =
    strcmp-order 3 10 20 bytes (97 ∷ 98 ∷ []) (97 ∷ 99 ∷ []) ab-HasString ac-HasString (omega arith)

before : strcmp 3 10 20 bytes ≡ some 0xffffffff
unfolding strcmp
before = refl

strlen-length_run : strlen 3 10 bytes ≡ some 2
strlen-length_run = strlen-length 3 10 bytes (97 ∷ 98 ∷ []) ab-HasString (omega arith)

memcmp-zero_run : (memcmp 10 20 1 bytes ≡ 0) ↔ SameWords 1 10 20 bytes
memcmp-zero_run = memcmp-zero 10 20 1 bytes (omega arith)

-- The first bytes agree, and the byte behind the one to be compared does not.
reads_on : memcmp 10 20 1 bytes ≡ 0xffffffff
unfolding memcmp
reads_on = refl

memcpy-copies_run :
    ((i : ℕ) → i < 4 → memcpy 8 10 4 bytes (8 + i) ≡ bytes (10 + i))
    × ((x : ℕ) → (x < 8) ⊎ (12 ≤ x) → memcpy 8 10 4 bytes x ≡ bytes x)
memcpy-copies_run = memcpy-copies 8 10 4 bytes (inl (omega arith))

memset-byte_run : memset 10 0x141 2 bytes 11 ≡ 0x41
memset-byte_run = memset-byte 10 0x141 2 11 bytes

strcpy-HasString_run :
    (mem' : Memory) × (strcpy 3 30 10 bytes ≡ some mem') × HasString mem' 30 (97 ∷ 98 ∷ [])
strcpy-HasString_run =
    strcpy-HasString 3 30 10 bytes (97 ∷ 98 ∷ []) ab-HasString (omega arith) (inr (omega arith))
