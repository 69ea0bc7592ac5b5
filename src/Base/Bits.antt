-- ===== src/Base/Bits.antt =====
-- The bits of a C word: `x & (1 << k)`, `x |= 1 << k`, `x &= ~(1 << k)` by recursion on k, and
-- their laws at every width.
pub mod Table
pub mod Words
use Prim.Native.Nat.{ℕ, zero, suc, ◌+◌, ◌*◌, ◌/◌, ◌%◌, ◌^◌, ◌≤◌, ◌<◌}
use mathlib.Core.Path.{◌≡◌, refl, ap}
use mathlib.Core.Bool.{Bool, true, false}
use native.Mathlib.Omega.{arith}
use native.Mathlib.Nat.{pow-suc}
use creeks_old.Base.Tests.{◌==◌, if◌then◌else◌}

-- Whether bit `k` is set, `x & (1 << k)`.
unfoldable pub bit_at : ℕ → ℕ → Bool
bit_at x zero = x % 2 == 1
bit_at x (suc k) = bit_at (x / 2) k

-- `x | (1 << k)`
unfoldable pub set_bit : ℕ → ℕ → ℕ
set_bit x zero = 2 * (x / 2) + 1
set_bit x (suc k) = 2 * set_bit (x / 2) k + x % 2

-- `x & ~(1 << k)`
unfoldable pub clear_bit : ℕ → ℕ → ℕ
clear_bit x zero = 2 * (x / 2)
clear_bit x (suc k) = 2 * clear_bit (x / 2) k + x % 2

pub bit_at-set_bit : (x i j : ℕ) → bit_at (set_bit x i) j ≡ (if j == i then true else bit_at x j)
unfolding bit_at set_bit
bit_at-set_bit x zero zero = ground arith
bit_at-set_bit x zero (suc j) =
    let e : (2 * (x / 2) + 1) / 2 ≡ x / 2 = omega arith in rw e (ground arith)
bit_at-set_bit x (suc i) zero = ground arith
bit_at-set_bit x (suc i) (suc j) =
    let e : (2 * set_bit (x / 2) i + x % 2) / 2 ≡ set_bit (x / 2) i = omega arith in
    rw e (ground (arith, bit_at-set_bit (x / 2) i j))

pub bit_at-clear_bit :
    (x i j : ℕ) → bit_at (clear_bit x i) j ≡ (if j == i then false else bit_at x j)
unfolding bit_at clear_bit
bit_at-clear_bit x zero zero = ground arith
bit_at-clear_bit x zero (suc j) =
    let e : 2 * (x / 2) / 2 ≡ x / 2 = omega arith in rw e (ground arith)
bit_at-clear_bit x (suc i) zero = ground arith
bit_at-clear_bit x (suc i) (suc j) =
    let e : (2 * clear_bit (x / 2) i + x % 2) / 2 ≡ clear_bit (x / 2) i = omega arith in
    rw e (ground (arith, bit_at-clear_bit (x / 2) i j))

-- A power of two, doubled.
pub pow_suc : (w : ℕ) → 2 ^ suc w ≡ 2 * 2 ^ w
pow_suc w = omega (arith, pow-suc 2 w)

pub clear_bit-le : (x i : ℕ) → clear_bit x i ≤ x
unfolding clear_bit
clear_bit-le x zero = omega arith
clear_bit-le x (suc i) = omega (arith, clear_bit-le (x / 2) i)

pub set_bit-lt : (w x i : ℕ) → x < 2 ^ w → i < w → set_bit x i < 2 ^ w
unfolding set_bit
set_bit-lt zero x i h k = absurd (omega arith)
set_bit-lt (suc w) x zero h k = omega (arith, pow_suc w)
set_bit-lt (suc w) x (suc i) h k =
    let p : 2 ^ suc w ≡ 2 * 2 ^ w = pow_suc w in
    omega (arith, set_bit-lt w (x / 2) i (omega arith) (omega arith))

-- Only the word of `w` ones has all its bits set.
pub bits_full : (w x : ℕ) → x < 2 ^ w → ((k : ℕ) → k < w → bit_at x k ≡ true) → suc x ≡ 2 ^ w
unfolding bit_at
bits_full zero x h all = omega arith
bits_full (suc w) x h all =
    let p : 2 ^ suc w ≡ 2 * 2 ^ w = pow_suc w in
    let low : x % 2 ≡ 1 = ground (arith, all 0) in
    omega (arith, low, bits_full w (x / 2) (omega arith) (λ k hk. all (suc k) (omega arith)))

pub full_bits : (w x k : ℕ) → suc x ≡ 2 ^ w → k < w → bit_at x k ≡ true
unfolding bit_at
full_bits zero x k e h = absurd (omega arith)
full_bits (suc w) x zero e h =
    let p : 2 ^ suc w ≡ 2 * 2 ^ w = pow_suc w in
    let low : x % 2 ≡ 1 = omega arith in ground (arith, low)
full_bits (suc w) x (suc k) e h =
    let p : 2 ^ suc w ≡ 2 * 2 ^ w = pow_suc w in full_bits w (x / 2) k (omega arith) (omega arith)

-- Two words with the same bits are the same.
pub bits_ext :
    (w x y : ℕ) → x < 2 ^ w → y < 2 ^ w → ((k : ℕ) → k < w → bit_at x k ≡ bit_at y k) → x ≡ y
unfolding bit_at
bits_ext zero x y hx hy same = omega arith
bits_ext (suc w) x y hx hy same =
    let p : 2 ^ suc w ≡ 2 * 2 ^ w = pow_suc w in
    let low : x % 2 ≡ y % 2 = ground (arith, same 0) in
    let high =
      bits_ext w (x / 2) (y / 2) (omega arith) (omega arith) (λ k h. same (suc k) (omega arith)) in
    omega (arith, low, high)

pub bit_at-zero : (k : ℕ) → bit_at 0 k ≡ false
unfolding bit_at
bit_at-zero zero = refl
bit_at-zero (suc k) = bit_at-zero k

-- What is added above bit `w` leaves the bits below it.
pub bit_at-add_high : (w x c i : ℕ) → i < w → bit_at (x + c * 2 ^ w) i ≡ bit_at x i
unfolding bit_at
bit_at-add_high zero x c i h = absurd (omega arith)
bit_at-add_high (suc w) x c zero h =
    let p : c * 2 ^ suc w ≡ 2 * (c * 2 ^ w) = omega (arith, ap (λ (t : ℕ). c * t) (pow_suc w)) in
    let e : (x + c * 2 ^ suc w) % 2 ≡ x % 2 = omega (arith, p) in rw e refl
bit_at-add_high (suc w) x c (suc i) h =
    let p : c * 2 ^ suc w ≡ 2 * (c * 2 ^ w) = omega (arith, ap (λ (t : ℕ). c * t) (pow_suc w)) in
    let e : (x + c * 2 ^ suc w) / 2 ≡ x / 2 + c * 2 ^ w = omega (arith, p) in
    rw e (bit_at-add_high w (x / 2) c i (omega arith))
