-- ===== src/Base/Arrays.antt =====
-- An array is a function from indices; a write replaces the value at one index.
use Prim.Native.Nat.{ℕ}
use mathlib.Core.Path.{◌≡◌, sym, ap, ◌∙◌, fun_ext}
use mathlib.Core.Logic.{◌≢◌, inl, inr}
use native.Mathlib.Omega.{arith}
use orderbook_engine.Base.Tests.{◌==◌, ==→eq, Bool-cases, if◌then◌else◌}

module _ {ℓ} {A : Type ℓ} where
  unfoldable pub update : (ℕ → A) → ℕ → A → ℕ → A
  update f i v j = if j == i then v else f j

  pub update_self : (f : ℕ → A) (i : ℕ) (v : A) → update f i v i ≡ v
  unfolding update
  update_self f i v = ground arith

  pub update_ne : (f : ℕ → A) (i : ℕ) (v : A) (j : ℕ) → j ≢ i → update f i v j ≡ f j
  unfolding update
  update_ne f i v j h = ground arith

  -- Writing what is there changes nothing.
  pub update_same : (f : ℕ → A) (i : ℕ) (v : A) → f i ≡ v → update f i v ≡ f
  unfolding update
  update_same f i v e = fun_ext λ j. elim (Bool-cases (j == i)) [
    | inl q ↦ rw q (sym (ap f (==→eq j i q) ∙ e))
    | inr ne ↦ rw ne
  ]
