-- ===== src/Strings/Compare.antt =====
-- `strcmp`, `strlen` and `memcmp`.
use piggy_os.Base.{
  ℕ, zero, suc, ◌+◌, ◌<◌, ◌≡◌, ◌≢◌, ◌↔◌, refl, sym, ap, ◌∙◌, List, [], ◌∷◌, arith, some, ◌==◌, ltb,
  if◌then◌else◌, length, if_true, if_false, Bool-cases, inl, inr, ne→==, ==_iff, subst,
}
use piggy_os.Strings.{Memory, minus_one, word_at, memcmp, memcmp_from, strcmp, strlen, strlen_from}

-- At address `p` stand the bytes `cs`, none of them 0, and a 0 behind them.
abbrev pub HasString : Memory → ℕ → List ℕ → Type 0
HasString mem p [] = mem p ≡ 0
HasString mem p (c ∷ cs) = (mem p ≡ c) × (c ≢ 0) × HasString mem (p + 1) cs

-- The order of two strings of bytes: 0 where they are equal, 1 or −1 where the first one comes
-- later or earlier.
abbrev pub order : List ℕ → List ℕ → ℕ
order [] [] = 0
order [] (d ∷ ds) = minus_one
order (c ∷ cs) [] = 1
order (c ∷ cs) (d ∷ ds) = if c == d then order cs ds else if ltb c d then minus_one else 1

-- `strcmp` is the order of the two strings, with more rounds than the first one has bytes.
pub strcmp-order :
    (fuel p q : ℕ) (mem : Memory) (cs ds : List ℕ)
    → HasString mem p cs
    → HasString mem q ds
    → length cs < fuel
    → strcmp fuel p q mem ≡ some (order cs ds)
unfolding strcmp
strcmp-order zero p q mem cs ds a b h = absurd (omega arith)
strcmp-order (suc fuel) p q mem [] [] a b h = ground arith
strcmp-order (suc fuel) p q mem [] (d ∷ ds) a b h = ground (arith, b.0, b.1)
strcmp-order (suc fuel) p q mem (c ∷ cs) [] a b h = ground (arith, a.0, a.1)
strcmp-order (suc fuel) p q mem (c ∷ cs) (d ∷ ds) a b h =
    ground
      (arith, a.0, a.1, b.0, b.1, strcmp-order fuel (p + 1) (q + 1) mem cs ds a.2 b.2 (omega arith))

pub order_self : (cs : List ℕ) → order cs cs ≡ 0
order_self [] = refl
order_self (c ∷ cs) = ground (arith, order_self cs)

pub order-zero : (cs ds : List ℕ) → order cs ds ≡ 0 → cs ≡ ds
order-zero [] [] e = refl
order-zero [] (d ∷ ds) e = absurd (omega arith)
order-zero (c ∷ cs) [] e = absurd (omega arith)
order-zero (c ∷ cs) (d ∷ ds) e = elim (Bool-cases (c == d)) [
  | inl h ↦
      let same : c ≡ d = ground arith in
      let rest : cs ≡ ds = order-zero cs ds (ground arith) in
      ap (λ (x : ℕ). x ∷ cs) same ∙ ap (λ xs. d ∷ xs) rest
  | inr h ↦ absurd (ground arith)
]

strlen_from-length :
    (fuel p i : ℕ) (mem : Memory) (cs : List ℕ)
    → HasString mem (p + i) cs
    → length cs < fuel
    → strlen_from fuel p i mem ≡ some (i + length cs)
unfolding strlen_from
strlen_from-length zero p i mem cs a h = absurd (omega arith)
strlen_from-length (suc fuel) p i mem [] a h =
    if_true (mem (p + i) == 0) _ _ (ground arith) ∙ ap some (omega arith)
strlen_from-length (suc fuel) p i mem (c ∷ cs) a h =
    let next : p + i + 1 ≡ p + (i + 1) = omega arith in
    if_false (mem (p + i) == 0) _ _ (ground (arith, a.0, a.1))
    ∙ strlen_from-length fuel p (i + 1) mem cs (subst (λ (t : ℕ). HasString mem t cs) next a.2)
        (omega arith)
    ∙ ap some (omega arith)

-- `strlen` counts the bytes of a string, with more rounds than it has bytes.
pub strlen-length :
    (fuel p : ℕ) (mem : Memory) (cs : List ℕ)
    → HasString mem p cs
    → length cs < fuel
    → strlen fuel p mem ≡ some (length cs)
unfolding strlen
strlen-length fuel p mem cs a h =
    strlen_from-length fuel p 0 mem cs (subst (λ (t : ℕ). HasString mem t cs) start a) h
    ∙ ap some (omega arith)
  where
    start : p ≡ p + 0
    start = omega arith

-- `len` words from two addresses on agree.
abbrev pub SameWords : (len p q : ℕ) → Memory → Type 0
SameWords zero p q mem = Unit
SameWords (suc len) p q mem = (word_at mem p ≡ word_at mem q) × SameWords len (p + 4) (q + 4) mem

pub SameWords-self : (len p : ℕ) (mem : Memory) → SameWords len p p mem
SameWords-self zero p mem = tt
SameWords-self (suc len) p mem = (refl, SameWords-self len (p + 4) mem)

differing : (a b : ℕ) → (if ltb b a then 1 else minus_one) ≢ 0
differing a b e = ground arith

memcmp_from-zero :
    (len p q : ℕ) (mem : Memory) → memcmp_from len p q mem ≡ 0 → SameWords len p q mem
unfolding memcmp_from
memcmp_from-zero zero p q mem e = tt
memcmp_from-zero (suc len) p q mem e = elim (Bool-cases (word_at mem p == word_at mem q)) [
  | inl h ↦ (
    (==_iff (word_at mem p) (word_at mem q)).0 h,
    memcmp_from-zero len (p + 4) (q + 4) mem (
        sym (
          if_true (word_at mem p == word_at mem q) (memcmp_from len (p + 4) (q + 4) mem)
            (if ltb (word_at mem q) (word_at mem p) then 1 else minus_one) h)
        ∙ e),
  )
  | inr h ↦ absurd (
      differing (word_at mem p) (word_at mem q) (
        sym (
          if_false (word_at mem p == word_at mem q) (memcmp_from len (p + 4) (q + 4) mem)
            (if ltb (word_at mem q) (word_at mem p) then 1 else minus_one) h)
        ∙ e))
]

memcmp_from-same :
    (len p q : ℕ) (mem : Memory) → SameWords len p q mem → memcmp_from len p q mem ≡ 0
unfolding memcmp_from
memcmp_from-same zero p q mem h = refl
memcmp_from-same (suc len) p q mem h =
    if_true (word_at mem p == word_at mem q) _ _ ((==_iff (word_at mem p) (word_at mem q)).1 h.0)
    ∙ memcmp_from-same len (p + 4) (q + 4) mem h.1

-- `memcmp` of two different addresses answers 0 exactly if `len` words, so four times as many bytes
-- as its argument says, agree.
pub memcmp-zero :
    (p q len : ℕ) (mem : Memory) → p ≢ q → (memcmp p q len mem ≡ 0) ↔ SameWords len p q mem
unfolding memcmp
memcmp-zero p q len mem ne =
    let test = if_false (p == q) 0 (memcmp_from len p q mem) (ne→== p q ne) in
    (λ e. memcmp_from-zero len p q mem (sym test ∙ e), λ h. test ∙ memcmp_from-same len p q mem h)
