-- ===== src/Rand.antt =====
-- kernel/fs/devices/rand.c: the random number generator, and reading from its device.
pub mod Step
pub mod Fill
mod Tests
use piggy_os.Base.{
  ℕ, zero, suc, ◌+◌, ◌-◌, ◌*◌, ◌/◌, ◌%◌, ◌^◌, bit_xor, ◌==◌, ltb, if◌then◌else◌, add32, sub32, u32,
  u8, update,
}

-- The variables of the file, and the static index of `rand`.
pub record Rand : Type 0 where
  pub q : ℕ → ℕ
  pub c : ℕ
  pub i : ℕ

abbrev pub phi : ℕ
phi = 0x9e3779b9

-- The variables before the device is created.
abbrev pub initial : Rand
initial = record { q = λ _. 0; c = 362436; i = 4095 }

-- The loop of `init_rand` from index `i` on, with `rounds` left.
pub init_from : (rounds i : ℕ) → (ℕ → ℕ) → ℕ → ℕ
init_from zero i q = q
init_from (suc rounds) i q =
    init_from rounds (suc i)
      (update q i (bit_xor (bit_xor (bit_xor (q (i - 3)) (q (i - 2))) phi) i))

-- The first three words.
abbrev pub seed : (x : ℕ) → (ℕ → ℕ) → ℕ → ℕ
seed x q = update (update (update q 0 x) 1 (add32 x phi)) 2 (add32 (add32 x phi) phi)

unfoldable pub init_rand : (x : ℕ) → Rand → Rand
init_rand x s = record s { q = init_from 4093 3 (seed x s.q) }

abbrev pub multiplier : ℕ
multiplier = 18782

-- `a * Q[i] + c` has 64 bits.
abbrev pub product : (word carry : ℕ) → ℕ
product word carry = (multiplier * word + carry) % 2 ^ 64

-- The carry and `x` behind the test for an overflow.
abbrev pub carried : (t : ℕ) → ℕ × ℕ
carried t =
    let c = u32 (t / 2 ^ 32) in
    let x = u32 (t + c) in if ltb x c then (add32 c 1, add32 x 1) else (c, x)

-- The number, and the state.
unfoldable pub rand : Rand → ℕ × Rand
rand s =
    let i = add32 s.i 1 % 4096 in
    let (c, x) = carried (product (s.q i) s.c) in
    let r = sub32 0xfffffffe x in (r, record { q = update s.q i r; c = c; i = i })

-- The loop of `read_random` with `n` bytes left: a byte of the buffer gets the low byte of a number.
pub read_from : (n buffer : ℕ) → (ℕ → ℕ) → Rand → (ℕ → ℕ) × Rand
read_from zero buffer mem s = (mem, s)
read_from (suc n) buffer mem s =
    let (r, s') = rand s in read_from n (buffer + 1) (update mem buffer (u8 r)) s'

-- The answer, the memory and the state.
unfoldable pub read_random : (offset size buffer : ℕ) → (ℕ → ℕ) → Rand → ℕ × (ℕ → ℕ) × Rand
unfolding read_from
read_random offset size buffer mem s =
    let (mem', s') = read_from size buffer mem s in (size, mem', s')

abbrev pub write_random : (offset size : ℕ) → ℕ
write_random offset size = size
