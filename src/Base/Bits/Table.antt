-- ===== src/Base/Bits/Table.antt =====
-- Facts about small ranges by evaluation, and the bit operations against the native bitwise ones,
-- checked over every byte and bit.
use Prim.Native.Nat.{ℕ, zero, suc, ◌-◌, ◌^◌, ◌<◌, bit_and, bit_or}
use mathlib.Core.Path.{◌≡◌, refl}
use mathlib.Core.Bool.{Bool, true, false, ◌&&◌}
use native.Mathlib.Omega.{arith}
use creeks_old.Base.Tests.{◌==◌, ◌!=◌, Bool-cases, eq_of_==, ne_of_==}
use mathlib.Core.Logic.{inl, inr}
use creeks_old.Base.Bits.{bit_at, set_bit, clear_bit}

-- Whether a test holds of the numbers under a bound.
unfoldable pub holds_under : (ℕ → Bool) → ℕ → Bool
holds_under test zero = true
holds_under test (suc bound) = holds_under test bound && test bound

pub holds_under-at :
    (test : ℕ → Bool) (bound : ℕ)
    → holds_under test bound ≡ true
    → (i : ℕ) → i < bound
    → test i ≡ true
unfolding holds_under
holds_under-at test zero e i h = absurd (omega arith)
holds_under-at test (suc bound) e i h = elim (Bool-cases (i == bound)) [
  | inl at_top ↦ let t : i ≡ bound = eq_of_== i bound at_top in rw t (ground arith)
  | inr under ↦ holds_under-at test bound (ground arith) i (ground (arith, ne_of_== i bound under))
]

unfoldable pub same : Bool → Bool → Bool
same true b = b
same false true = false
same false false = true

pub eq_of_same : (a b : Bool) → same a b ≡ true → a ≡ b
unfolding same
eq_of_same a b h = ground arith

set_bit_table : holds_under (λ x. holds_under (λ k. set_bit x k == bit_or x (2 ^ k)) 8) 256 ≡ true
unfolding holds_under set_bit
set_bit_table = refl

clear_bit_table :
    holds_under (λ x. holds_under (λ k. clear_bit x k == bit_and x (255 - 2 ^ k)) 8) 256 ≡ true
unfolding holds_under clear_bit
clear_bit_table = refl

bit_at_table :
    holds_under (λ x. holds_under (λ k. same (bit_at x k) (bit_and x (2 ^ k) != 0)) 8) 256 ≡ true
unfolding holds_under bit_at same
bit_at_table = refl
