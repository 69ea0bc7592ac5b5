-- ===== src/Base/Bits/Words.antt =====
-- `a & b` and `a | b` of C words at variables: the step on the lowest digit, single bits, and the
-- masks and disjoint fields that the kernel's code is made of.
use Prim.Native.Nat.{
  ℕ, zero, suc, ◌+◌, ◌-◌, ◌*◌, ◌/◌, ◌%◌, ◌^◌, ◌≤◌, ◌<◌, min, max, bit_and, bit_or, digits, bitwise,
  bit_and-bitwise, bit_or-bitwise,
}
use mathlib.Core.Path.{◌≡◌, refl, ap}
use mathlib.Core.Bool.{◌&&◌, ◌||◌}
use native.Mathlib.Omega.{arith}
use native.Mathlib.Nat.{div-div-eq-div-mul, div-add-mod}
use creeks_old.Base.Bits.{bit_at, pow_suc}

module _ (z : ℕ → ℕ) (f : ℕ → ℕ → ℕ) where
  -- One round more than there are digits changes nothing.
  spare_round : (n a b : ℕ) → a ≤ n → digits z f (suc n) a b ≡ digits z f n a b
  spare_round zero zero b h = refl
  spare_round zero (suc a) b h = absurd (omega arith)
  spare_round (suc n) zero b h = refl
  spare_round (suc n) (suc a) b h = omega (arith, spare_round n (suc a / 2) (b / 2) (omega arith))

  spare_rounds : (d n a b : ℕ) → a ≤ n → digits z f (d + n) a b ≡ digits z f n a b
  spare_rounds zero n a b h = grind arith
  spare_rounds (suc d) n a b h =
      grind (arith, spare_round (d + n) a b (omega arith), spare_rounds d n a b h)

  halve :
      (a b : ℕ)
      → z b ≡ z (b / 2) * 2 + f 0 (b % 2)
      → bitwise z f a b ≡ bitwise z f (a / 2) (b / 2) * 2 + f (a % 2) (b % 2)
  halve zero b empty = empty
  halve (suc a) b empty =
      let e : a ≡ a - suc a / 2 + suc a / 2 = omega arith in
      omega (
        arith,
        ap (λ (n : ℕ). digits z f n (suc a / 2) (b / 2)) e,
        spare_rounds (a - suc a / 2) (suc a / 2) (suc a / 2) (b / 2) (omega arith),
      )

pub bit_or_step : (a b : ℕ) → bit_or a b ≡ bit_or (a / 2) (b / 2) * 2 + max (a % 2) (b % 2)
bit_or_step a b = omega (
  arith,
  bit_or-bitwise a b,
  bit_or-bitwise (a / 2) (b / 2),
  halve (λ y. y) max a b (omega arith),
)

pub bit_and_step : (a b : ℕ) → bit_and a b ≡ bit_and (a / 2) (b / 2) * 2 + min (a % 2) (b % 2)
bit_and_step a b = omega (
  arith,
  bit_and-bitwise a b,
  bit_and-bitwise (a / 2) (b / 2),
  halve (λ y. 0) min a b (omega arith),
)

-- The mask with no bit set.
zero_mask : (bound a : ℕ) → a ≤ bound → (bit_and a 0 ≡ 0) × (bit_or a 0 ≡ a)
zero_mask bound zero h = (bit_and-bitwise 0 0, bit_or-bitwise 0 0)
zero_mask zero (suc a) h = absurd (omega arith)
zero_mask (suc bound) (suc a) h =
    let (n, o) = zero_mask bound (suc a / 2) (omega arith) in
    (omega (arith, bit_and_step (suc a) 0, n), omega (arith, bit_or_step (suc a) 0, o))

pub bit_and-zero : (a : ℕ) → bit_and a 0 ≡ 0
bit_and-zero a = (zero_mask a a (omega arith)).0

pub bit_or-zero : (a : ℕ) → bit_or a 0 ≡ a
bit_or-zero a = (zero_mask a a (omega arith)).1

-- Single bits.
pub bit_at-bit_or : (k a b : ℕ) → bit_at (bit_or a b) k ≡ (bit_at a k || bit_at b k)
unfolding bit_at
bit_at-bit_or zero a b = ground (arith, bit_or_step a b)
bit_at-bit_or (suc k) a b =
    let e : bit_or a b / 2 ≡ bit_or (a / 2) (b / 2) = omega (arith, bit_or_step a b) in
    rw e (bit_at-bit_or k (a / 2) (b / 2))

pub bit_at-bit_and : (k a b : ℕ) → bit_at (bit_and a b) k ≡ (bit_at a k && bit_at b k)
unfolding bit_at
bit_at-bit_and zero a b = ground (arith, bit_and_step a b)
bit_at-bit_and (suc k) a b =
    let e : bit_and a b / 2 ≡ bit_and (a / 2) (b / 2) = omega (arith, bit_and_step a b) in
    rw e (bit_at-bit_and k (a / 2) (b / 2))

half_div : (a k : ℕ) → a / 2 ^ suc k ≡ a / 2 / 2 ^ k
half_div a k = rw (pow_suc k, div-div-eq-div-mul) refl

half_mod : (a k : ℕ) → a % 2 ^ suc k ≡ 2 * (a / 2 % 2 ^ k) + a % 2
half_mod a k = omega (
  arith,
  half_div a k,
  ap (λ (t : ℕ). t * (a / 2 / 2 ^ k)) (pow_suc k),
  div-add-mod a (2 ^ suc k),
  ap (λ (t : ℕ). 2 ^ suc k * t) (half_div a k),
  div-add-mod (a / 2) (2 ^ k),
)

-- A mask of `k` ones keeps the low `k` bits.
pub bit_and-ones : (k a m : ℕ) → suc m ≡ 2 ^ k → bit_and a m ≡ a % 2 ^ k
bit_and-ones zero a m e = let z : m ≡ 0 = omega arith in rw z (omega (arith, bit_and-zero a))
bit_and-ones (suc k) a m e =
    let p : 2 ^ suc k ≡ 2 * 2 ^ k = pow_suc k in
    omega (arith, bit_and_step a m, bit_and-ones k (a / 2) (m / 2) (omega arith), half_mod a k)

-- A mask whose low `k` bits are zero acts on the bits above.
pub bit_and-high : (k a m : ℕ) → bit_and a (m * 2 ^ k) ≡ bit_and (a / 2 ^ k) m * 2 ^ k
bit_and-high zero a m =
    let e : m * 1 ≡ m = omega arith in let f : a / 1 ≡ a = omega arith in rw (e, f) (omega arith)
bit_and-high (suc k) a m =
    let e : m * 2 ^ suc k ≡ 2 * (m * 2 ^ k) = omega (arith, ap (λ (t : ℕ). m * t) (pow_suc k)) in
    let h : 2 * (m * 2 ^ k) / 2 ≡ m * 2 ^ k = omega arith in
    let b : bit_and (a / 2) (2 * (m * 2 ^ k) / 2) ≡ bit_and (a / 2 ^ suc k) m * 2 ^ k =
      rw (h, half_div a k) (bit_and-high k (a / 2) m) in
    rw e (
      omega (
        arith,
        bit_and_step a (2 * (m * 2 ^ k)),
        b,
        ap (λ (t : ℕ). bit_and (a / 2 ^ suc k) m * t) (pow_suc k),
      ))

-- Fields that do not overlap are added up.
pub bit_or-disjoint : (k a b : ℕ) → b < 2 ^ k → bit_or (a * 2 ^ k) b ≡ a * 2 ^ k + b
bit_or-disjoint zero a b h =
    let z : b ≡ 0 = omega arith in rw z (omega (arith, bit_or-zero (a * 1)))
bit_or-disjoint (suc k) a b h =
    let p : 2 ^ suc k ≡ 2 * 2 ^ k = pow_suc k in
    let e : a * 2 ^ suc k ≡ 2 * (a * 2 ^ k) = omega (arith, ap (λ (t : ℕ). a * t) p) in
    let f : 2 * (a * 2 ^ k) / 2 ≡ a * 2 ^ k = omega arith in
    let ih : bit_or (2 * (a * 2 ^ k) / 2) (b / 2) ≡ a * 2 ^ k + b / 2 =
      rw f (bit_or-disjoint k a (b / 2) (omega arith)) in
    rw e (omega (arith, bit_or_step (2 * (a * 2 ^ k)) b, ih))
