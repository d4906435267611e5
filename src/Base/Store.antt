-- ===== src/Base/Store.antt =====
-- Memory as a function from addresses to values, and one write to it.
use Prim.Native.Nat.{ℕ}
use mathlib.Core.Path.{◌≡◌, fun_ext}
use native.Mathlib.Omega.{arith}
use mathlib.Core.Logic.{◌≢◌}
use piggy_os.Base.Tests.{◌==◌, if◌then◌else◌}

module _ {ℓ} {A : Type ℓ} where
  -- `f` with the value `v` at `p`
  abbrev pub update : (ℕ → A) → ℕ → A → ℕ → A
  update f p v q = if p == q then v else f q

  pub update_self : (f : ℕ → A) (p : ℕ) (v : A) → update f p v p ≡ v
  update_self f p v = ground arith

  pub update_ne : (f : ℕ → A) (p : ℕ) (v : A) {q : ℕ} → p ≢ q → update f p v q ≡ f q
  update_ne f p v h = ground arith

  pub update-update : (f : ℕ → A) (p : ℕ) (v w : A) → update (update f p v) p w ≡ update f p w
  update-update f p v w = fun_ext λ q. ground arith
