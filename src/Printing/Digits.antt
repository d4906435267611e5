-- ===== src/Printing/Digits.antt =====
-- `__itoa`: the digits that it writes, and that they are read back to the number.
use piggy_os.Base.{
  ℕ, zero, suc, ◌+◌, ◌-◌, ◌*◌, ◌/◌, ◌%◌, ◌^◌, ◌≤◌, ◌<◌, ◌≡◌, ◌≢◌, refl, ◌∙◌, List, [], ◌∷◌, ◌++◌,
  arith, ◌==◌, ltb, if◌then◌else◌, length, length-append, if_true, Bool-cases, leb, inl, inr,
  get_or, Bool, true, ◌&&◌, not,
}
use piggy_os.Base.Count.{count, all_of_count}
use native.Mathlib.Nat.{div-add-mod, mod-lt, pow-suc, div-lt_iff_lt-mul, pow-zero}
use piggy_os.Printing.{bchars}

-- The digit of a value below 16.
abbrev pub figure : ℕ → ℕ
figure v = get_or bchars v 0

-- The digits of `i`, the highest one first, none for 0; `fuel` bounds their number.
unfoldable pub figures : (fuel base i : ℕ) → List ℕ
figures zero base i = []
figures (suc fuel) base i =
    let higher = figures fuel base (i / base) in
    if i == 0 then [] else higher ++ (figure (i % base) ∷ [])

-- The numeral of a 32-bit number.
unfoldable pub numeral : (base i : ℕ) → List ℕ
numeral base i = if i == 0 then b'0' ∷ [] else figures 32 base i

-- The value of a digit, and of a list of digits behind the value `acc`.
abbrev pub figure_value : ℕ → ℕ
figure_value c = if ltb c 65 then c - 48 else c - 55

abbrev pub read_from : (base acc : ℕ) → List ℕ → ℕ
read_from base acc [] = acc
read_from base acc (c ∷ cs) = read_from base (acc * base + figure_value c) cs

read_from-snoc :
    (base acc c : ℕ) (cs : List ℕ)
    → read_from base acc (cs ++ (c ∷ [])) ≡ read_from base acc cs * base + figure_value c
read_from-snoc base acc c [] = refl
read_from-snoc base acc c (d ∷ cs) = read_from-snoc base (acc * base + figure_value d) c cs

abbrev is_figure : ℕ → Bool
is_figure v = (figure_value (figure v) == v) && not (figure v == 0)

sixteen : count is_figure 16 ≡ 16
unfolding count
sixteen = refl

pub figure_value-figure : (v : ℕ) → v < 16 → (figure_value (figure v) ≡ v) × (figure v ≢ 0)
figure_value-figure v h =
    let all : is_figure v ≡ true = all_of_count is_figure 16 sixteen v h in split (figure v) v all
  where
    split :
        (c v : ℕ) → ((figure_value c == v) && not (c == 0)) ≡ true → (figure_value c ≡ v) × (c ≢ 0)
    split c v e = ground arith

pub half : (fuel base i : ℕ) → 2 ≤ base → i < 2 ^ suc fuel → i / base < 2 ^ fuel
half fuel base i b h = grind (arith, pow-suc 2 fuel, div-add-mod i base)

pub mod-small : (i base : ℕ) → 2 ≤ base → base ≤ 16 → i % base < 16
mod-small i base lo hi = let pos : 0 < base = omega arith in omega (arith, mod-lt i pos)

read_from-figures :
    (fuel base i : ℕ)
    → 2 ≤ base
    → base ≤ 16
    → i < 2 ^ fuel
    → read_from base 0 (figures fuel base i) ≡ i
unfolding figures
read_from-figures zero base i lo hi h = omega arith
read_from-figures (suc fuel) base i lo hi h = elim (Bool-cases (i == 0)) [
  | inl e ↦ rw e (ground arith)
  | inr e ↦ rw e (
      read_from-snoc base 0 (figure (i % base)) (figures fuel base (i / base))
      ∙ rw (read_from-figures fuel base (i / base) lo hi (half fuel base i lo h)) (
          omega (
            arith,
            div-add-mod i base,
            (figure_value-figure (i % base) (mod-small i base lo hi)).0,
          )))
]

-- The numeral is read back to the number; it has at most 32 digits, and no leading 0 unless it is 0.
pub numeral-read_from :
    (i base : ℕ) → 2 ≤ base → base ≤ 16 → i < 2 ^ 32 → read_from base 0 (numeral base i) ≡ i
unfolding numeral
numeral-read_from i base lo hi h = elim (Bool-cases (i == 0)) [
  | inl e ↦ rw e (ground arith)
  | inr e ↦ rw e (read_from-figures 32 base i lo hi h)
]

length-figures : (k fuel base i : ℕ) → 0 < base → i < base ^ k → length (figures fuel base i) ≤ k
unfolding figures
length-figures zero zero base i b h = omega arith
length-figures (suc k) zero base i b h = omega arith
length-figures zero (suc fuel) base i b h =
    let none_left : i ≡ 0 = omega (arith, pow-zero base) in
    rw
      (if_true (i == 0) [] (figures fuel base (i / base) ++ (figure (i % base) ∷ []))
        (ground arith))
      (omega arith)
length-figures (suc k) (suc fuel) base i b h = elim (Bool-cases (i == 0)) [
  | inl e ↦ rw e (omega arith)
  | inr e ↦ rw e (
      omega (
        arith,
        length-append (figures fuel base (i / base)) (figure (i % base) ∷ []),
        length-figures k fuel base (i / base) b
            ((div-lt_iff_lt-mul b).1 (omega (arith, h, pow-suc base k))),
      ))
]

-- The numeral of a number below `base ^ k` has at most `k` digits, and one where it is 0.
pub length-numeral : (i base k : ℕ) → 0 < base → 0 < k → i < base ^ k → length (numeral base i) ≤ k
unfolding numeral
length-numeral i base k b p h = elim (Bool-cases (i == 0)) [
  | inl e ↦ rw e (omega arith)
  | inr e ↦ rw e (length-figures k 32 base i b h)
]

-- The numeral of the `int` with the bit pattern `i`.
unfoldable pub signed_numeral : (base i : ℕ) → List ℕ
signed_numeral base i = if leb (2 ^ 31) i then b'-' ∷ numeral base (2 ^ 32 - i) else numeral base i

-- The numerals of `int`s and of words fit in the 32 bytes that the directives reserve: with the
-- sign there are at most 11 characters to the base 10, and 8 to the base 16.
pub numerals-fit :
    (i : ℕ) → i < 2 ^ 32 → (length (signed_numeral 10 i) ≤ 11) × (length (numeral 16 i) ≤ 8)
unfolding signed_numeral
numerals-fit i h =
    let decimal = length-numeral i 10 10 (omega arith) (omega arith) (omega arith) in
    (
      elim (Bool-cases (leb (2 ^ 31) i)) [
        | inl e ↦ rw e (
            omega
              (arith, length-numeral (2 ^ 32 - i) 10 10 (omega arith) (omega arith) (ground arith)))
        | inr e ↦ rw e (omega (arith, decimal))
      ],
      length-numeral i 16 8 (omega arith) (omega arith) (omega arith),
    )
