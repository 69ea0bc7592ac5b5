-- ===== src/Libc/Numerals.antt =====
-- The two loops of `itoa` of kern/lib.c: the digits from the lowest on, and the reversal.
use creeks_old.Base.{
  ℕ, zero, suc, ◌+◌, ◌-◌, ◌/◌, ◌%◌, ◌^◌, ◌≤◌, ◌<◌, ◌≡◌, ◌≢◌, ◌⊎◌, ◌∙◌, refl, sym, ap, fun_ext, inl,
  inr, some, leb, ltb, ◌==◌, ◌&&◌, if◌then◌else◌, update, update_self, arith, Bool-cases, eq_of_==,
  ne_of_==,
}
use creeks_old.Libc.{Bytes, digit_char, digits_loop, reverse_loop}
use native.Mathlib.Nat.{div-lt_self, div-div-eq-div-mul, pow-succ', pow-zero, zero-div}

-- Memory with the bytes from `l` to `u` in the opposite order.
unfoldable pub reversed : (l u : ℕ) → Bytes → Bytes
reversed l u m a = if leb l a && leb a u then m (l + u - a) else m a

swap_ends :
    (j i buf : ℕ) (m : Bytes)
    → j < i
    → reversed
        (buf + (j + 1))
        (buf + (i - 1))
        (update (update m (buf + j) (m (buf + i))) (buf + i) (m (buf + j)))
      ≡ reversed (buf + j) (buf + i) m
unfolding reversed
swap_ends j i buf m h = fun_ext (λ a. ground arith)

at_most_one : (j i buf : ℕ) (m : Bytes) → i ≤ j → j ≤ i + 1 → m ≡ reversed (buf + j) (buf + i) m
unfolding reversed
at_most_one j i buf m h k = fun_ext (λ a. elim (Bool-cases (leb (buf + j) a && leb a (buf + i))) [
  | inl inside ↦ let e : buf + j + (buf + i) - a ≡ a = ground arith in rw e (ground arith)
  | inr outside ↦ ground arith
])

-- The second loop of itoa turns round the bytes from j to i, whose number is at most twice its rounds.
pub reverse_loop-reversed :
    (fuel j i buf : ℕ) (m : Bytes)
    → i < j + fuel
    → j ≤ i + 1
    → reverse_loop fuel j i buf m ≡ reversed (buf + j) (buf + i) m
unfolding reverse_loop reversed
reverse_loop-reversed zero j i buf m h k = at_most_one j i buf m (omega arith) k
reverse_loop-reversed (suc fuel) j i buf m h k = elim (Bool-cases (ltb j i)) [
  | inl more ↦
      let swapped = update (update m (buf + j) (m (buf + i))) (buf + i) (m (buf + j)) in
      let rest =
        reverse_loop-reversed fuel (j + 1) (i - 1) buf swapped (ground arith) (ground arith) in
      rw more (rest ∙ swap_ends j i buf m (ground arith))
  | inr done ↦ rw done (at_most_one j i buf m (ground arith) k)
]

-- Digit `t` of `n` counted from the lowest, as a character.
abbrev pub digit : (base n t : ℕ) → ℕ
digit base n t = digit_char (n / base ^ t % base)

-- What the first loop leaves: `k` digits of `n` from `at` on, and the rest of memory as it was.
pub record Written (base n at : ℕ) (m : Bytes) (k : ℕ) (m' : Bytes) : Type 0 where
  pub some_digit : 0 < k
  pub digits : (t : ℕ) → t < k → m' (at + t) ≡ digit base n t
  pub complete : n / base ^ k ≡ 0
  pub minimal : (k ≡ 1) ⊎ (n / base ^ (k - 1) ≢ 0)
  pub below : (a : ℕ) → a < at → m' a ≡ m a
  pub above : (a : ℕ) → at + k ≤ a → m' a ≡ m a

shift_digit : (base n t : ℕ) → n / base / base ^ t ≡ n / base ^ suc t
shift_digit base n t =
    div-div-eq-div-mul n base (base ^ t) ∙ ap (λ p. n / p) (sym (pow-succ' base t))

lowest_digit : (base n : ℕ) → n / base ^ 0 ≡ n
lowest_digit base n = rw pow-zero (omega arith)

one_digit : (base n : ℕ) → n / base ^ 1 ≡ n / base
one_digit base n = sym (shift_digit base n 0) ∙ lowest_digit base (n / base)

single_digit_lem :
    (base n at : ℕ) (m : Bytes)
    → n / base ≡ 0
    → Written base n at m 1 (update m at (digit_char (n % base)))
single_digit_lem base n at m e = record {
  some_digit = omega arith;
  digits = λ t h.
      let z : t ≡ 0 = omega arith in
      let at_zero : at + 0 ≡ at = omega arith in
      rw (z, at_zero, lowest_digit base n) (update_self m at _);
  complete = one_digit base n ∙ e;
  minimal = inl refl;
  below = λ a h. ground arith;
  above = λ a h. ground arith;
}

module _ (base n at : ℕ) (m m' : Bytes) (k : ℕ)
    (w : Written base (n / base) (at + 1) (update m at (digit_char (n % base))) k m') where
  each_digit : (t : ℕ) → t < suc k → m' (at + t) ≡ digit base n t
  each_digit zero h =
      let at_zero : at + 0 ≡ at = omega arith in
      rw (at_zero, lowest_digit base n) (w.below at (omega arith) ∙ update_self m at _)
  each_digit (suc t) h =
      let e : at + suc t ≡ at + 1 + t = omega arith in
      rw e (w.digits t (omega arith) ∙ ap (λ q. digit_char (q % base)) (shift_digit base n t))

  highest_digit : n / base ≢ 0 → n / base ^ k ≢ 0
  highest_digit ne z =
      let e : k ≡ suc (k - 1) = omega (arith, w.some_digit) in
      let q : n / base / base ^ (k - 1) ≡ 0 =
        shift_digit base n (k - 1) ∙ (ap (λ j. n / base ^ j) (sym e) ∙ z) in
      elim w.minimal [
        | inl one ↦ ne (sym (one_digit base n) ∙ (ap (λ j. n / base ^ j) (sym one) ∙ z))
        | inr more ↦ more q
      ]

digit_before :
    (base n at : ℕ) (m m' : Bytes) (k : ℕ)
    → n / base ≢ 0
    → Written base (n / base) (at + 1) (update m at (digit_char (n % base))) k m'
    → Written base n at m (suc k) m'
digit_before base n at m m' k ne w = record {
  some_digit = omega arith;
  digits = each_digit base n at m m' k w;
  complete = sym (shift_digit base n k) ∙ w.complete;
  minimal = let e : suc k - 1 ≡ k = omega arith in rw e (inr (highest_digit base n at m m' k w ne));
  below = λ a h. w.below a (omega arith) ∙ ground arith;
  above = λ a h. w.above a (omega arith) ∙ ground arith;
}

nonzero_quotient : (base n : ℕ) → n / base ≢ 0 → 0 < n
nonzero_quotient base zero ne = absurd (ne (zero-div base))
nonzero_quotient base (suc n) ne = omega arith

-- The first loop of itoa ends within one round more than the number, and leaves the digits of the
-- number from the lowest on, without a zero in front.
pub digits_loop-Written :
    (base fuel n i buf : ℕ) (m : Bytes)
    → 1 < base
    → n < fuel
    → (k : ℕ) × ((m' : Bytes) × ((digits_loop base fuel n i buf m ≡ some (i + k, m'))
          × Written base n (buf + i) m k m'))
unfolding digits_loop
digits_loop-Written base zero n i buf m b h = absurd (omega arith)
digits_loop-Written base (suc fuel) n i buf m b h =
    let written = update m (buf + i) (digit_char (n % base)) in
    elim (Bool-cases (n / base == 0)) [
      | inl last ↦ (
        1,
        (written, (rw last refl, single_digit_lem base n (buf + i) m (eq_of_== (n / base) 0 last))),
      )
      | inr more ↦
          let ne : n / base ≢ 0 = ne_of_== (n / base) 0 more in
          let positive : 0 < n = nonzero_quotient base n ne in
          let (k, (m', (run, w))) =
            digits_loop-Written base fuel (n / base) (i + 1) buf written b
              (omega (arith, div-lt_self {n = n} {k = base} positive b)) in
          let count : i + 1 + k ≡ i + suc k = omega arith in
          let from : buf + (i + 1) ≡ buf + i + 1 = omega arith in
          (
            suc k,
            (
              m',
              (rw (more, sym count) run, digit_before base n (buf + i) m m' k ne (rw from at (w))),
            ),
          )
    ]
