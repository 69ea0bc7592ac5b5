-- ===== src/Signal/Pending.antt =====
-- The set of pending signals: what the three macros do to it, and what `dequeue_signal` takes.
use creeks_old.Base.{
  ℕ, zero, suc, ◌+◌, ◌-◌, ◌/◌, ◌%◌, ◌^◌, ◌≤◌, ◌<◌, ◌≡◌, ◌≢◌, refl, true, false, Option, some, inl,
  inr, arith, sym, ◌∙◌, ◌==◌, if◌then◌else◌, Bool-cases, eq_of_==, ne_of_==,
}
use creeks_old.Base.Bits.{
  bit_at, bit_at-set_bit, bit_at-clear_bit, bits_ext, bit_at-zero, bit_at-add_high,
}
use creeks_old.Signal.{
  shift_of, set_signal, clear_signal, is_signal, sar, dequeue_loop, dequeue_signal,
}

-- After `set_signal` exactly that signal is pending besides the ones before, after `clear_signal`
-- it is not and the others are as before, for any two of the signals 1 to 32.
pub is_signal-changes :
    (mask sig other : ℕ)
    → 0 < sig
    → sig ≤ 32
    → 0 < other
    → other ≤ 32
    → (is_signal (set_signal mask sig) other
        ≡ (if other == sig then true else is_signal mask other))
      × (is_signal (clear_signal mask sig) other
          ≡ (if other == sig then false else is_signal mask other))
unfolding is_signal set_signal clear_signal
is_signal-changes mask sig other p q r s =
    let same : shift_of sig ≡ (sig + 31) % 32 = refl in
    (
      ground (arith, bit_at-set_bit mask (shift_of sig) (shift_of other)),
      ground (arith, bit_at-clear_bit mask (shift_of sig) (shift_of other)),
    )

-- The lowest pending signal, or 0.
pub data Lowest (mask : ℕ) : Option ℕ → Type 0 where
  no_signal : mask ≡ 0 → Lowest mask (some 0)
  lowest :
      {sig : ℕ}
      → 0 < sig
      → sig ≤ 32
      → is_signal mask sig ≡ true
      → ((s : ℕ) → 0 < s → s < sig → is_signal mask s ≡ false)
      → Lowest mask (some sig)

sar_step : (m i : ℕ) → i < 31 → bit_at (sar m) i ≡ bit_at m (suc i)
unfolding bit_at
sar_step m i h = bit_at-add_high 31 (m / 2) (m / 2 ^ 31) i h

signal_bit : (mask s : ℕ) → 0 < s → s ≤ 32 → is_signal mask s ≡ bit_at mask (s - 1)
unfolding is_signal
signal_bit mask s p q = let e : shift_of s ≡ s - 1 = omega arith in rw e refl

module _ (mask : ℕ) (small : mask < 2 ^ 32) (pending : mask ≢ 0) where
  -- After `k` shifts: the bits of `m` are those of the mask from `k` on, and the ones below are 0.
  loop_Lowest :
      (n k m : ℕ)
      → n + k ≡ 32
      → ((i : ℕ) → i + k < 32 → bit_at m i ≡ bit_at mask (i + k))
      → ((j : ℕ) → j < k → bit_at mask j ≡ false)
      → Lowest mask (dequeue_loop n (k + 1) m)
  unfolding dequeue_loop bit_at
  loop_Lowest zero k m e same low = absurd (
      pending
        (bits_ext 32 mask 0 small (omega arith) λ j hj. low j (omega arith) ∙ sym (bit_at-zero j)))
  loop_Lowest (suc n) k m e same low = elim (Bool-cases (m % 2 == 1)) [
    | inl hit ↦ rw hit (
        let here : bit_at mask (0 + k) ≡ true = sym (same 0 (omega arith)) ∙ hit in
        let z : 0 + k ≡ k + 1 - 1 = omega arith in
        lowest (omega arith) (omega arith)
          (signal_bit mask (k + 1) (omega arith) (omega arith) ∙ (rw z at here))
          λ s p q. signal_bit mask s p (omega arith) ∙ low (s - 1) (omega arith))
    | inr miss ↦ rw miss (
        let here : bit_at mask (0 + k) ≡ false = sym (same 0 (omega arith)) ∙ miss in
        let z : 0 + k ≡ k = omega arith in
        loop_Lowest n (k + 1) (sar m) (omega arith)
          (λ i h.
            let shift : suc i + k ≡ i + (k + 1) = omega arith in
            sar_step m i (omega arith) ∙ (rw shift at (same (suc i) (omega arith))))
          λ j h. elim (Bool-cases (j == k)) [
            | inl at_k ↦ rw (eq_of_== j k at_k) (rw z at here)
            | inr below ↦ low j (ground arith)
          ])
  ]

-- On every 32-bit mask the loop of `dequeue_signal` ends: with 0 when nothing is pending, and
-- otherwise with the lowest pending signal, between 1 and 32.
pub dequeue_signal-Lowest : (mask : ℕ) → mask < 2 ^ 32 → Lowest mask (dequeue_signal mask)
unfolding dequeue_signal
dequeue_signal-Lowest mask small = elim (Bool-cases (mask == 0)) [
  | inl e ↦ rw e (no_signal (eq_of_== mask 0 e))
  | inr e ↦ rw e (
      loop_Lowest mask small (ne_of_== mask 0 e) 32 0 mask (omega arith)
        (λ i h. let z : i + 0 ≡ i = omega arith in rw z refl) λ j h. absurd (omega arith))
]

pub ne_zero_of_is_signal : (mask sig : ℕ) → is_signal mask sig ≡ true → mask ≢ 0
unfolding is_signal
ne_zero_of_is_signal mask sig h z =
    let off : bit_at mask (shift_of sig) ≡ false = rw z (bit_at-zero (shift_of sig)) in ground arith
