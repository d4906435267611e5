-- ===== src/Kheap/Best.antt =====
-- `bestfit`: the least block of the free list that is large enough.
use piggy_os.Base.{
  ℕ, zero, suc, ◌*◌, ◌/◌, ◌%◌, ◌≤◌, ◌<◌, ◌≡◌, ◌≢◌, ◌⊎◌, inl, inr, refl, sym, ◌∙◌, List, [], ◌∷◌,
  arith, some, Bool, true, false, ◌&&◌, ◌||◌, ◌==◌, ltb, if◌then◌else◌, length, Bool-cases, ne→==,
  if_false, subst,
}
use piggy_os.Kheap.{Heap, next_of, does_it_fit, best_loop, bestfit}

-- The blocks `ps`, from `p` on along the links, up to NULL.
abbrev pub Chain : Heap → ℕ → List ℕ → Type 0
Chain h p [] = p ≡ 0
Chain h p (q ∷ qs) = (p ≡ q) × (q ≢ 0) × Chain h (next_of h q) qs

abbrev pub Member : ℕ → List ℕ → Type 0
Member p [] = ⊥
Member p (q ∷ qs) = (p ≡ q) ⊎ Member p qs

-- The block at `p` is free, by the lowest bit of its size, and not smaller than `size` rounded down to
-- an even number.
abbrev pub Fits : (size : ℕ) → Heap → ℕ → Type 0
Fits size h p = (h.words p % 2 ≡ 1) × (size / 2 * 2 ≤ h.words p)

-- `b` is a block, and no larger than any of `ps` that fits.
abbrev pub Least : (size : ℕ) → Heap → ℕ → List ℕ → Type 0
Least size h b [] = Unit
Least size h b (p ∷ ps) = (Fits size h p → (b ≢ 0) × (h.words b ≤ h.words p)) × Least size h b ps

-- The loop's answer `r`, from the best block `b` before the blocks `ps`.
record Best (size : ℕ) (h : Heap) (b r : ℕ) (ps : List ℕ) : Type 0 where
  chosen : (r ≡ b) ⊎ (Member r ps × (does_it_fit r size h ≡ true))
  kept : b ≢ 0 → (r ≢ 0) × (h.words r ≤ h.words b)
  least : Least size h r ps

module _ (size : ℕ) (h : Heap) where
  Fits-true : (p : ℕ) → p ≢ 0 → Fits size h p → does_it_fit p size h ≡ true
  Fits-true p real f = ground (arith, f.0, f.1)

  Fits-of : (p : ℕ) → does_it_fit p size h ≡ true → Fits size h p
  Fits-of p e = (ground arith, ground arith)

  chosen-Fits :
      (b : ℕ) (ps : List ℕ)
      → (b ≡ 0) ⊎ (Member b ps × (does_it_fit b size h ≡ true))
      → (b ≡ 0) ⊎ (Member b ps × Fits size h b)
  chosen-Fits b ps (inl e) = inl e
  chosen-Fits b ps (inr m) = inr (m.0, Fits-of b m.1)

  -- One round of the loop.
  better : (p b : ℕ) → Bool
  better p b = does_it_fit p size h && (b == 0 || ltb (h.words p) (h.words b))

  better-true :
      (p b : ℕ)
      → better p b ≡ true
      → (does_it_fit p size h ≡ true) × (b ≢ 0 → h.words p ≤ h.words b)
  unfolding better
  better-true p b e = (ground arith, λ ne. ground arith)

  better-false :
      (p b : ℕ)
      → better p b ≡ false
      → does_it_fit p size h ≡ true
      → (b ≢ 0) × (h.words b ≤ h.words p)
  unfolding better
  better-false p b e f = (λ z. absurd (ground arith), ground arith)

  chosen_first :
      (p r : ℕ) (ps : List ℕ)
      → does_it_fit p size h ≡ true
      → (r ≡ p) ⊎ (Member r ps × (does_it_fit r size h ≡ true))
      → Member r (p ∷ ps) × (does_it_fit r size h ≡ true)
  chosen_first p r ps f (inl e) = (inl e, subst (λ q. does_it_fit q size h ≡ true) (sym e) f)
  chosen_first p r ps f (inr m) = (inr m.0, m.1)

  chosen_later :
      (p b r : ℕ) (ps : List ℕ)
      → (r ≡ b) ⊎ (Member r ps × (does_it_fit r size h ≡ true))
      → (r ≡ b) ⊎ (Member r (p ∷ ps) × (does_it_fit r size h ≡ true))
  chosen_later p b r ps (inl e) = inl e
  chosen_later p b r ps (inr m) = inr (inr m.0, m.1)

  Best-step :
      (p b r : ℕ) (ps : List ℕ)
      → p ≢ 0
      → Best size h (if better p b then p else b) r ps
      → Best size h b r (p ∷ ps)
  Best-step p b r ps real rest = elim (Bool-cases (better p b)) [
    | inl e ↦
        let now : Best size h p r ps = subst (λ t. Best size h (if t then p else b) r ps) e rest in
        let first = now.kept real in
        record {
          chosen = inr (chosen_first p r ps (better-true p b e).0 now.chosen);
          kept = λ ne. (first.0, omega (arith, first.1, (better-true p b e).1 ne));
          least = (λ f. first, now.least);
        }
    | inr e ↦
        let now : Best size h b r ps = subst (λ t. Best size h (if t then p else b) r ps) e rest in
        record {
          chosen = chosen_later p b r ps now.chosen;
          kept = now.kept;
          least = (
            λ f.
                let old = better-false p b e (Fits-true p real f) in
                ((now.kept old.0).0, omega (arith, (now.kept old.0).1, old.1)),
            now.least,
          );
        }
  ]

  loop-Best :
      (fuel p b : ℕ) (ps : List ℕ)
      → Chain h p ps
      → length ps < fuel
      → (r : ℕ) × (best_loop fuel p b size h ≡ some r) × Best size h b r ps
  unfolding best_loop better
  loop-Best zero p b ps c lt = absurd (omega arith)
  loop-Best (suc fuel) p b [] c lt =
      (b, ground arith, record { chosen = inl refl; kept = λ ne. (ne, omega arith); least = tt })
  loop-Best (suc fuel) p b (q ∷ qs) c lt =
      let b' = if better q b then q else b in
      let rest = loop-Best fuel (next_of h q) b' qs c.2 (omega arith) in
      let round = best_loop fuel (next_of h q) b' size h in
      subst (λ t. (r : ℕ) × (best_loop (suc fuel) t b size h ≡ some r) × Best size h b r (q ∷ qs))
        (sym c.0)
        (
          rest.0,
          if_false (q == 0) (some b) round (ne→== q 0 c.1) ∙ rest.1,
          Best-step q b rest.0 qs c.1 rest.2,
        )

  -- With more rounds than the free list has blocks, `bestfit` answers a block of the list whose size
  -- has its lowest bit set and is at least `size` rounded down to an even number, and no other such
  -- block has a smaller size; or NULL, where no block is such.
  pub bestfit-Least :
      (fuel : ℕ) (ps : List ℕ)
      → Chain h h.freelist ps
      → length ps < fuel
      → (b : ℕ) × (bestfit fuel size h ≡ some b)
        × ((b ≡ 0) ⊎ (Member b ps × Fits size h b))
        × Least size h b ps
  unfolding bestfit
  bestfit-Least fuel [] c lt = (0, rw c, inl refl, tt)
  bestfit-Least fuel (q ∷ qs) c lt =
      let best = loop-Best fuel h.freelist 0 (q ∷ qs) c lt in
      (
        best.0,
        if_false (h.freelist == 0) (some 0) (best_loop fuel h.freelist 0 size h)
              (ne→== h.freelist 0 (subst (λ t. t ≢ 0) (sym c.0) c.1))
            ∙ best.1,
        chosen-Fits best.0 (q ∷ qs) best.2.chosen,
        best.2.least,
      )
