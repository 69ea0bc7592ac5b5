-- ===== src/Schedule/Choice.antt =====
-- The round robin of `schedule`: which process follows the current one.
use creeks_old.Base.{
  ℕ, zero, suc, ◌+◌, ◌-◌, ◌≤◌, ◌<◌, ◌≡◌, ◌≢◌, ◌⊎◌, refl, Bool, true, arith, inl, inr, Bool-cases,
  ◌==◌, ltb, if◌then◌else◌, eq_of_==, ne_of_==,
}
use creeks_old.Process.{Process, is_ready, max_pid}
use creeks_old.Schedule.{find_ready, next_pid}

-- The steps that the round robin takes from `c` to `i`, over the numbers 1 to 31.
abbrev pub steps : ℕ → ℕ → ℕ
steps c i = if ltb c i then i - c else i + 31 - c

abbrev pub ready_at : (ℕ → Process) → ℕ → Bool
ready_at p_list i = is_ready (p_list i).state

-- The number that follows `c`: of the ready processes 1 to 31 other than `c` the nearest in that
-- order, and 0 if there is none.
pub record IsNext (p_list : ℕ → Process) (c next : ℕ) : Type 0 where
  pub below : next < max_pid
  pub other : (next ≢ c) ⊎ (next ≡ 0)
  pub ready : (next ≡ 0) ⊎ (ready_at p_list next ≡ true)
  pub nearest :
      (i : ℕ)
      → 0 < i
      → i < max_pid
      → i ≢ c
      → ready_at p_list i ≡ true
      → (next ≢ 0) × (steps c next ≤ steps c i)

module _ (p_list : ℕ → Process) where
  -- What one loop finds from `i` on in `n` rounds.
  record IsFirst (i n r : ℕ) : Type 0 where
    zero_or_in : (r ≡ 0) ⊎ ((i ≤ r) × (r < i + n) × (ready_at p_list r ≡ true))
    first : (j : ℕ) → i ≤ j → j < i + n → ready_at p_list j ≡ true → (r ≢ 0) × (r ≤ j)

  find_ready-IsFirst : (n i : ℕ) → 0 < i → IsFirst i n (find_ready n i p_list)
  unfolding find_ready
  find_ready-IsFirst zero i pos = record {
    zero_or_in = inl refl;
    first = λ j lo hi r. absurd (omega arith);
  }
  find_ready-IsFirst (suc n) i pos =
      let widen : (find_ready n (i + 1) p_list ≡ 0)
            ⊎ ((i + 1 ≤ find_ready n (i + 1) p_list)
                × (find_ready n (i + 1) p_list < i + 1 + n)
                × (ready_at p_list (find_ready n (i + 1) p_list) ≡ true))
          → (find_ready n (i + 1) p_list ≡ 0)
            ⊎ ((i ≤ find_ready n (i + 1) p_list)
                × (find_ready n (i + 1) p_list < i + suc n)
                × (ready_at p_list (find_ready n (i + 1) p_list) ≡ true)) =
        elim [ inl z ↦ inl z | inr t ↦ inr (omega arith, omega arith, t.2) ] in
      let ih = find_ready-IsFirst n (i + 1) (omega arith) in
      elim (Bool-cases (ready_at p_list i)) [
        | inl hit ↦ rw hit (record {
          zero_or_in = inr (omega arith, omega arith, hit);
          first = λ j lo hi r. (omega arith, lo);
        })
        | inr miss ↦ rw miss (record {
          zero_or_in = widen ih.zero_or_in;
          first = λ j lo hi r. elim (Bool-cases (j == i)) [
            | inl e ↦ ground (arith, miss)
            | inr ne ↦ ih.first j (ground arith) (omega arith) r
          ];
        })
      ]

  ahead_lem :
      (c r : ℕ) → c < max_pid → r ≢ 0 → IsFirst (c + 1) (max_pid - (c + 1)) r → IsNext p_list c r
  ahead_lem c r h ne f = record {
    below = ground (arith, f.zero_or_in);
    other = inl (ground (arith, f.zero_or_in));
    ready = ground (arith, f.zero_or_in);
    nearest = λ i lo hi nc r. elim (Bool-cases (ltb c i)) [
      | inl later ↦ ground (arith, f.zero_or_in, f.first i (ground arith) (omega arith) r)
      | inr earlier ↦ ground (arith, f.zero_or_in)
    ];
  }

  around_lem :
      (c a r : ℕ)
      → c < max_pid
      → a ≡ 0
      → IsFirst (c + 1) (max_pid - (c + 1)) a
      → IsFirst 1 (c - 1) r
      → IsNext p_list c r
  around_lem c a r h z f g = record {
    below = ground (arith, g.zero_or_in);
    other = ground (arith, g.zero_or_in);
    ready = ground (arith, g.zero_or_in);
    nearest = λ i lo hi nc rd. elim (Bool-cases (ltb c i)) [
      | inl later ↦ absurd ((f.first i (ground arith) (omega arith) rd).0 z)
      | inr earlier ↦ ground (arith, g.zero_or_in, g.first i lo (ground arith) rd)
    ];
  }

  -- After a process from 0 to 31, `next_pid` is the next ready one in cyclic order, and 0 only if
  -- no other process from 1 to 31 is ready.
  pub next_pid-IsNext : (c : ℕ) → c < max_pid → IsNext p_list c (next_pid c p_list)
  unfolding next_pid
  next_pid-IsNext c h =
      let after = find_ready-IsFirst (max_pid - (c + 1)) (c + 1) (omega arith) in
      let before = find_ready-IsFirst (c - 1) 1 (omega arith) in
      elim (Bool-cases (find_ready (max_pid - (c + 1)) (c + 1) p_list == 0)) [
        | inl e ↦ rw e (around_lem c _ _ h (eq_of_== _ 0 e) after before)
        | inr e ↦ rw e (ahead_lem c _ h (ne_of_== _ 0 e) after)
      ]
