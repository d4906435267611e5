-- ===== src/Tar/Size.antt =====
-- `tar_getsize` reads octal digits.
use piggy_os.Base.{ℕ, zero, suc, ◌+◌, ◌-◌, ◌*◌, ◌%◌, ◌^◌, ◌<◌, ◌≤◌, ◌≡◌, arith, add32, sub32, mul32}
use piggy_os.Strings.{Memory}
use piggy_os.Tar.{tar_getsize, extended}

-- The value of `n` octal digits, the first one highest.
abbrev pub octal : (n digits : ℕ) → Memory → ℕ
octal zero digits mem = 0
octal (suc n) digits mem = octal n digits mem * 8 + (mem (digits + n) - 48)

digit-eq : (c : ℕ) → 48 ≤ c → c < 56 → sub32 (extended c) 48 ≡ c - 48
digit-eq c h k = ground arith

-- The sum that the loop computes, for eleven digits below 8.
abbrev summed : (a b c d e f g h i j k : ℕ) → ℕ
summed a b c d e f g h i j k =
    add32
      (add32
        (add32
          (add32
            (add32
              (add32
                (add32
                  (add32 (add32 (add32 (add32 0 (mul32 k 1)) (mul32 j 8)) (mul32 i 64))
                    (mul32 h 512))
                  (mul32 g 4096))
                (mul32 f 32768))
              (mul32 e 262144))
            (mul32 d 2097152))
          (mul32 c 16777216))
        (mul32 b 134217728))
      (mul32 a 1073741824)

summed-value :
    (a b c d e f g h i j k : ℕ)
    → (a < 8) × (b < 8) × (c < 8) × (d < 8) × (e < 8) × (f < 8)
    → (g < 8) × (h < 8) × (i < 8) × (j < 8) × (k < 8)
    → summed a b c d e f g h i j k
      ≡ (((((((((((0 + a) * 8 + b) * 8 + c) * 8 + d) * 8 + e) * 8 + f) * 8 + g) * 8 + h) * 8 + i)
                * 8
              + j)
            * 8
          + k)
        % 2 ^ 32
summed-value a b c d e f g h i j k p q = omega arith

-- `tar_getsize` of eleven octal digits is their value, modulo 2 ^ 32.
pub tar_getsize-octal :
    (digits : ℕ) (mem : Memory)
    → ((i : ℕ) → i < 11 → (48 ≤ mem (digits + i)) × (mem (digits + i) < 56))
    → tar_getsize digits mem ≡ octal 11 digits mem % 2 ^ 32
unfolding tar_getsize
tar_getsize-octal digits mem h =
    let d : ℕ → ℕ = λ i. mem (digits + i) - 48 in
    rw
      (
        digit 0 (omega arith),
        digit 1 (omega arith),
        digit 2 (omega arith),
        digit 3 (omega arith),
        digit 4 (omega arith),
        digit 5 (omega arith),
        digit 6 (omega arith),
        digit 7 (omega arith),
        digit 8 (omega arith),
        digit 9 (omega arith),
        digit 10 (omega arith),
      )
      (summed-value (d 0) (d 1) (d 2) (d 3) (d 4) (d 5) (d 6) (d 7) (d 8) (d 9) (d 10)
        (
          small 0 (omega arith),
          small 1 (omega arith),
          small 2 (omega arith),
          small 3 (omega arith),
          small 4 (omega arith),
          small 5 (omega arith),
        )
        (
          small 6 (omega arith),
          small 7 (omega arith),
          small 8 (omega arith),
          small 9 (omega arith),
          small 10 (omega arith),
        ))
  where
    digit : (i : ℕ) → i < 11 → sub32 (extended (mem (digits + i))) 48 ≡ mem (digits + i) - 48
    digit i lt = digit-eq (mem (digits + i)) (h i lt).0 (h i lt).1

    small : (i : ℕ) → i < 11 → mem (digits + i) - 48 < 8
    small i lt = omega (arith, (h i lt).0, (h i lt).1)
