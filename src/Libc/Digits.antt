-- ===== src/Libc/Digits.antt =====
-- `itoa` of kern/lib.c: the numeral that it writes.
use creeks_old.Base.{ℕ, ◌+◌, ◌-◌, ◌/◌, ◌^◌, ◌<◌, ◌≡◌, ◌≢◌, ◌⊎◌, ap, some, update, arith}
use creeks_old.Libc.{Bytes, itoa}
use creeks_old.Libc.Numerals.{digit, Written, reversed, digits_loop-Written, reverse_loop-reversed}

-- A numeral of `k` digits for `n` at `buf`, the highest digit first, without a zero in front unless
-- it is the only digit, and ended by a zero byte; the rest of memory is as before.
pub record Printed (base n buf : ℕ) (m : Bytes) (k : ℕ) (m' : Bytes) : Type 0 where
  pub some_digit : 0 < k
  pub digits : (t : ℕ) → t < k → m' (buf + t) ≡ digit base n (k - 1 - t)
  pub end : m' (buf + k) ≡ 0
  pub complete : n / base ^ k ≡ 0
  pub minimal : (k ≡ 1) ⊎ (n / base ^ (k - 1) ≢ 0)
  pub below : (a : ℕ) → a < buf → m' a ≡ m a
  pub above : (a : ℕ) → buf + k < a → m' a ≡ m a

turned :
    (base n buf : ℕ) (m : Bytes) (k : ℕ) (m1 : Bytes)
    → Written base n buf m k m1
    → Printed base n buf m k (reversed buf (buf + (k - 1)) (update m1 (buf + k) 0))
unfolding reversed
turned base n buf m k m1 w = record {
  some_digit = w.some_digit;
  digits = λ t h.
      let e : buf + (buf + (k - 1)) - (buf + t) ≡ buf + (k - 1 - t) = omega arith in
      rw e (ground (arith, w.digits (k - 1 - t) (omega arith)));
  end = ground (arith, w.some_digit);
  complete = w.complete;
  minimal = w.minimal;
  below = λ a h. ground (arith, w.below a h);
  above = λ a h. ground (arith, w.above a (omega arith));
}

-- In a base from 2 on, itoa returns within one round more than the number, and leaves a numeral of
-- the number in the buffer: its digits from the highest to the lowest, with no zero in front of
-- another digit, and a zero byte behind them; no other byte changes.
pub itoa-Printed :
    (fuel buf n base : ℕ) (m : Bytes)
    → 1 < base
    → n < fuel
    → (k : ℕ) × ((m' : Bytes) × ((itoa fuel buf n base m ≡ some m') × Printed base n buf m k m'))
unfolding itoa
itoa-Printed fuel buf n base m b h =
    let (k, (m1, (run, w))) = digits_loop-Written base fuel n 0 buf m b h in
    let count : 0 + k ≡ k = omega arith in
    let start : buf + 0 ≡ buf = omega arith in
    let back =
      reverse_loop-reversed k 0 (k - 1) buf (update m1 (buf + k) 0) (omega (arith, w.some_digit))
        (omega arith) in
    (
      k,
      (
        reversed buf (buf + (k - 1)) (update m1 (buf + k) 0),
        (
          rw (run, count) (ap some (rw start at (back))),
          turned base n buf m k m1 (rw start at (w)),
        ),
      ),
    )
