-- ===== src/Base/Maps.antt =====
-- Memory, tables and arrays as functions from native indices, changed at one index at a time.
use Prim.Native.Nat.{ℕ}
use mathlib.Core.Path.{◌≡◌, sym, subst}
use mathlib.Core.Logic.{◌≢◌, inl, inr}
use native.Mathlib.Omega.{arith}
use creeks_old.Base.Tests.{◌==◌, if◌then◌else◌, Bool-cases, eq_of_==, ne_of_==}

module _ {ℓ} {A : Type ℓ} where
  -- `m[i] = v`
  abbrev pub update : (ℕ → A) → ℕ → A → ℕ → A
  update m i v j = if j == i then v else m j

  pub update_self : (m : ℕ → A) (i : ℕ) (v : A) → update m i v i ≡ v
  update_self m i v = ground arith

  pub update_ne : (m : ℕ → A) (i j : ℕ) (v : A) → j ≢ i → update m i v j ≡ m j
  update_ne m i j v h = ground arith

-- What holds of a new value at its place, and of the old ones at the others, holds of the changed map.
pub at_update {ℓ κ} :
    {A : Type ℓ} (P : ℕ → A → Type κ) (m : ℕ → A) (i : ℕ) (v : A)
    → P i v
    → (j : ℕ) → (j ≢ i → P j (m j))
    → P j (update m i v j)
at_update P m i v here j there = elim (Bool-cases (j == i)) [
  | inl at ↦
      let e : j ≡ i = eq_of_== j i at in
      subst (λ x. P x (update m i v x)) (sym e) (subst (P i) (sym (update_self m i v)) here)
  | inr apart ↦
      subst (P j) (sym (update_ne m i j v (ne_of_== j i apart))) (there (ne_of_== j i apart))
]
