-- ===== src/Libc/Atoi.antt =====
-- `atoi` of usr/libc/libc.c reads back what `itoa` writes.
use creeks_old.Base.{
  ℕ, zero, suc, ◌+◌, ◌-◌, ◌*◌, ◌/◌, ◌%◌, ◌^◌, ◌≤◌, ◌<◌, ◌≡◌, ◌≢◌, ◌∙◌, sym, ap, some, arith,
}
use creeks_old.Libc.{Bytes, atoi, atoi_loop, itoa, digit_char}
use creeks_old.Libc.Digits.{Printed, itoa-Printed}
use native.Mathlib.Nat.{div-div-eq-div-mul, pow-suc, div-le_self}

digit_step :
    (fuel c acc d : ℕ) (m : Bytes)
    → m c ≡ 48 + d
    → d < 10
    → atoi_loop (suc fuel) c acc m ≡ atoi_loop fuel (c + 1) ((acc * 10 + (48 + d) - 48) % 2 ^ 32) m
unfolding atoi_loop
digit_step fuel c acc d m e h = rw e (ground arith)

stop_step : (fuel c acc : ℕ) (m : Bytes) → m c ≡ 0 → atoi_loop (suc fuel) c acc m ≡ some acc
unfolding atoi_loop
stop_step fuel c acc m e = ground arith

decimal : (d : ℕ) → d < 10 → digit_char d ≡ 48 + d
unfolding digit_char
decimal d h = ground arith

next_value :
    (n r : ℕ)
    → n < 2 ^ 32
    → (n / 10 ^ suc r * 10 + (48 + n / 10 ^ r % 10) - 48) % 2 ^ 32 ≡ n / 10 ^ r
next_value n r small =
    let e : n / 10 ^ suc r ≡ n / 10 ^ r / 10 =
      sym (div-div-eq-div-mul n (10 ^ r) 10 ∙ ap (λ q. n / q) (sym (pow-suc 10 r))) in
    let s : n / 10 ^ r ≤ n = div-le_self n (10 ^ r) in rw e (omega arith)

module _ (n buf : ℕ) (m : Bytes) (k : ℕ) (m' : Bytes) (p : Printed 10 n buf m k m')
    (small : n < 2 ^ 32) where
  read_from :
      (r fuel : ℕ) → r ≤ k → r < fuel → atoi_loop fuel (buf + (k - r)) (n / 10 ^ r) m' ≡ some n
  read_from r zero l f = absurd (omega arith)
  read_from zero (suc fuel) l f =
      let e : k - 0 ≡ k = omega arith in
      let v : n / 10 ^ 0 ≡ n = omega arith in rw (e, v) (stop_step fuel (buf + k) n m' p.end)
  read_from (suc r) (suc fuel) l f =
      let place : k - 1 - (k - suc r) ≡ r = omega arith in
      let d = n / 10 ^ r % 10 in
      let c = p.digits (k - suc r) (omega arith) ∙ (rw place (decimal d (omega arith))) in
      let next : buf + (k - suc r) + 1 ≡ buf + (k - r) = omega arith in
      let rest = read_from r fuel (omega arith) (omega arith) in
      digit_step fuel (buf + (k - suc r)) (n / 10 ^ suc r) d m' c (omega arith)
      ∙ (rw (next, next_value n r small) rest)

  first_digit : m' buf ≢ 45
  first_digit e =
      let start : buf + 0 ≡ buf = omega arith in
      let c = p.digits 0 p.some_digit in
      let v = decimal (n / 10 ^ (k - 1 - 0) % 10) (omega arith) in
      let q = rw (start, v) at (c) in omega (arith, q)

  atoi_numeral : (fuel : ℕ) → k < fuel → atoi fuel buf m' ≡ some n
  unfolding atoi
  atoi_numeral fuel f =
      let start : buf + (k - k) ≡ buf = omega arith in
      let run = read_from k fuel (omega arith) f in
      let zero_first = rw (start, p.complete) at (run) in ground (arith, zero_first, first_digit)

-- The user library's atoi reads a number below 2^32 back from what itoa has written for it in base
-- ten: both return, itoa within one round more than the number and atoi within one round more than
-- the number has digits.
pub atoi-itoa :
    (fuel buf n : ℕ) (m : Bytes)
    → n < 2 ^ 32
    → n < fuel
    → (k : ℕ) × ((m' : Bytes) × ((itoa fuel buf n 10 m ≡ some m')
          × ((rounds : ℕ) → k < rounds → atoi rounds buf m' ≡ some n)))
atoi-itoa fuel buf n m small f =
    let (k, (m', (run, p))) = itoa-Printed fuel buf n 10 m (omega arith) f in
    (k, (m', (run, atoi_numeral n buf m k m' p small)))
