-- ===== src/Schedule/Fairness.antt =====
-- The round robin starves no process that it looks at, and never looks at the last slot.
use creeks_old.Base.{
  ℕ, zero, suc, ◌≤◌, ◌<◌, ◌≡◌, ◌≢◌, true, arith, inl, inr, Bool-cases, ◌==◌, eq_of_==, ne_of_==,
}
use creeks_old.Process.{Process, max_pid}
use creeks_old.Schedule.{next_pid}
use creeks_old.Schedule.Choice.{steps, ready_at, IsNext, next_pid-IsNext}

-- The process that runs after `k` switches, while no process changes its state.
abbrev pub after_switches : ℕ → ℕ → (ℕ → Process) → ℕ
after_switches zero c p_list = c
after_switches (suc k) c p_list = after_switches k (next_pid c p_list) p_list

module _ (p_list : ℕ → Process) (i : ℕ) (pos : 0 < i) (lt : i < max_pid)
    (ready : ready_at p_list i ≡ true) where
  -- A switch that does not reach `i` comes nearer.
  closer : (c n : ℕ) → c < max_pid → c ≢ i → n ≢ i → IsNext p_list c n → steps n i < steps c i
  closer c n h ne nn next =
      ground (arith, next.nearest i pos lt (λ e. ne (omega arith)) ready, next.other, next.below)

  reached :
      (fuel c : ℕ)
      → c < max_pid
      → c ≢ i
      → steps c i ≤ fuel
      → (k : ℕ) × (0 < k) × (k ≤ steps c i) × (after_switches k c p_list ≡ i)
  reached zero c h ne f = absurd (ground arith)
  reached (suc fuel) c h ne f =
      let next = next_pid-IsNext p_list c h in
      elim (Bool-cases (next_pid c p_list == i)) [
        | inl e ↦ (1, omega arith, ground arith, eq_of_== _ i e)
        | inr e ↦
            let near = closer c (next_pid c p_list) h ne (ne_of_== _ i e) next in
            let (k, p, q, r) =
              reached fuel (next_pid c p_list) next.below (ne_of_== _ i e) (omega arith) in
            (suc k, omega arith, omega arith, r)
      ]

  -- A ready process from 1 to 31 runs after at most 31 switches, whichever other process runs now,
  -- as long as no process changes its state; the number of switches is at most its distance in
  -- cyclic order.
  pub round_robin_reaches :
      (c : ℕ)
      → c < max_pid
      → c ≢ i
      → (k : ℕ) × (0 < k) × (k ≤ steps c i) × (k ≤ 31) × (after_switches k c p_list ≡ i)
  round_robin_reaches c h ne =
      let (k, p, q, r) = reached (steps c i) c h ne (omega arith) in (k, p, q, ground arith, r)
