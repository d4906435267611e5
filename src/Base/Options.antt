-- ===== src/Base/Options.antt =====
-- Chains of results that may be missing.
use mathlib.Core.Option.{Option, none, some}

module _ {ℓ ℓ'} {A : Type ℓ} {B : Type ℓ'} where
  -- `k` of the result, if there is one.
  abbrev pub then_with : Option A → (A → Option B) → Option B
  then_with none k = none
  then_with (some a) k = k a
