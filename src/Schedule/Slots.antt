-- ===== src/Schedule/Slots.antt =====
-- The process number that `load_task` takes.
use creeks_old.Base.{
  ℕ, zero, suc, ◌+◌, ◌≤◌, ◌<◌, ◌≡◌, ◌≢◌, ◌⊎◌, refl, Bool, true, false, arith, inl, inr, Bool-cases,
  Option, none, some, ◌==◌, ltb, if◌then◌else◌, eq_of_==,
}
use creeks_old.Process.{Process, is_taken, max_pid}
use creeks_old.Schedule.{free_slot, new_pid, next_pid}
use creeks_old.Schedule.Choice.{next_pid-IsNext}

abbrev pub taken_at : (ℕ → Process) → ℕ → Bool
taken_at p_list i = is_taken (p_list i).state

true≢ : {b : Bool} → b ≡ true → b ≡ false → ⊥
true≢ p q = cc

module _ (p_list : ℕ → Process) where
  -- The number at which the loop ends, from `i` on.
  record IsFirstFree (i r : ℕ) : Type 0 where
    from : i ≤ r
    limit : r ≤ 33
    free : (r ≡ 33) ⊎ (taken_at p_list r ≡ false)
    skipped : (j : ℕ) → i ≤ j → j < r → taken_at p_list j ≡ true

  free_slot_lem :
      (n i : ℕ) → 0 < n → i + n ≡ 33 → (r : ℕ) × (free_slot n i p_list ≡ some r) × IsFirstFree i r
  unfolding free_slot
  free_slot_lem zero i pos e = absurd (omega arith)
  free_slot_lem (suc n) i pos e = elim (Bool-cases (taken_at p_list i)) [
    | inr free ↦ (
      i,
      rw free refl,
      record {
        from = omega arith;
        limit = omega arith;
        free = inr free;
        skipped = λ j lo hi. absurd (omega arith);
      },
    )
    | inl taken ↦ elim (Bool-cases (ltb i max_pid)) [
      | inr last ↦ (
        i + 1,
        rw (taken, last) refl,
        record {
          from = omega arith;
          limit = ground arith;
          free = inl (ground arith);
          skipped = λ j lo hi. let z : j ≡ i = omega arith in rw z taken;
        },
      )
      | inl more ↦
          let (r, found, f) = free_slot_lem n (i + 1) (ground arith) (omega arith) in
          (
            r,
            rw (taken, more) found,
            record {
              from = omega (arith, f.from);
              limit = f.limit;
              free = f.free;
              skipped = λ j lo hi. elim (Bool-cases (j == i)) [
                | inl z ↦ rw (eq_of_== j i z) taken
                | inr z ↦ f.skipped j (ground arith) hi
              ];
            },
          )
    ]
  ]

  -- What `load_task` takes, given that the first slot from 1 on that is not taken is `r`.
  pub data Taken : Option (Option ℕ) → Type 0 where
    slot :
        {r : ℕ}
        → 0 < r
        → r ≤ max_pid
        → taken_at p_list r ≡ false
        → ((j : ℕ) → 0 < j → j < r → taken_at p_list j ≡ true)
        → Taken (some (some r))
    past_end :
        ((j : ℕ) → 0 < j → j ≤ max_pid → taken_at p_list j ≡ true)
        → Taken (some (if taken_at p_list 33 then none else some 33))

  outcome : (r : ℕ) → IsFirstFree 1 r → Taken (some (if taken_at p_list r then none else some r))
  outcome r f = elim (Bool-cases (r == 33)) [
    | inl e ↦
        let z : r ≡ 33 = eq_of_== r 33 e in
        rw z (past_end (λ j lo hi. f.skipped j (omega arith) (omega arith)))
    | inr ne ↦
        let free : taken_at p_list r ≡ false = ground (arith, f.free) in
        rw free (
          slot (omega (arith, f.from)) (ground (arith, f.limit)) free
            (λ j lo hi. f.skipped j (omega arith) hi))
  ]

  -- The loop of `load_task` ends. It takes the lowest number from 1 to 32 whose slot is free; when
  -- all 32 are taken, what happens is decided by what lies behind the array, at index 33.
  pub new_pid-Taken : Taken (new_pid p_list)
  unfolding new_pid
  new_pid-Taken =
      let (r, found, f) = free_slot_lem 32 1 (omega arith) refl in rw (found, new_pid) (outcome r f)

  -- A free slot 32 is taken when the slots before it are, and yet `schedule` never switches to
  -- process 32, whichever process of 0 to 31 runs.
  pub slot_32_never_scheduled :
      (c : ℕ)
      → ((j : ℕ) → 0 < j → j < 32 → taken_at p_list j ≡ true)
      → taken_at p_list 32 ≡ false
      → c < 32
      → (new_pid p_list ≡ some (some 32)) × (next_pid c p_list ≢ 32)
  slot_32_never_scheduled c full free h =
      (is_32 new_pid-Taken, λ e. absurd (omega (arith, (next_pid-IsNext p_list c h).below)))
    where
      is_32 : {o : Option (Option ℕ)} → Taken o → o ≡ some (some 32)
      is_32 (slot {r} pos le fr skipped) = elim (Bool-cases (r == 32)) [
        | inl e ↦ let z : r ≡ 32 = eq_of_== r 32 e in rw z refl
        | inr ne ↦ absurd (true≢ (full r pos (ground arith)) fr)
      ]
      is_32 (past_end all) = absurd (true≢ (all 32 (omega arith) (omega arith)) free)
