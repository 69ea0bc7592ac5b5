-- ===== src/Schedule/Tests.antt =====
-- Runs of the scheduler, and its theorems at a concrete table of processes.
use creeks_old.Base.{ℕ, ◌≤◌, ◌<◌, ◌≡◌, ◌≢◌, refl, true, some, arith, ◌==◌, ◌||◌, ltb, if◌then◌else◌}
use creeks_old.Process.{ready, unused, Process, Kernel}
use creeks_old.Process.Samples.{process}
use creeks_old.Schedule.{next_pid, new_pid}
use creeks_old.Schedule.Choice.{IsNext, next_pid-IsNext, steps}
use creeks_old.Schedule.Fairness.{after_switches, round_robin_reaches}
use creeks_old.Schedule.Slots.{slot_32_never_scheduled, taken_at}

-- Processes 0, 1, 4 and 6 are ready.
abbrev four : ℕ → Process
four i = process i (if (i == 0) || ((i == 1) || ((i == 4) || (i == 6))) then ready else unused)

-- All the slots before 32 are taken.
abbrev crowd : ℕ → Process
crowd i = process i (if ltb i 32 then ready else unused)

abbrev kernel : Kernel
kernel = record {
  p_list = four;
  current = 4;
  n_proc = 3;
  tss_esp0 = 0x900FF0;
  tss_ss0 = 0x18;
  memory = λ a. 0;
}

after_four : next_pid 4 four ≡ 6
unfolding next_pid
after_four = refl

after_six : next_pid 6 four ≡ 1
unfolding next_pid
after_six = refl

fresh_number : new_pid four ≡ some (some 2)
unfolding new_pid
fresh_number = refl

next_pid-IsNext_example : IsNext four 4 (next_pid 4 four)
next_pid-IsNext_example = next_pid-IsNext four 4 (omega arith)

round_robin_reaches_example :
    (k : ℕ) × (0 < k) × (k ≤ steps 4 1) × (k ≤ 31) × (after_switches k 4 four ≡ 1)
round_robin_reaches_example =
    round_robin_reaches four 1 (omega arith) (omega arith) refl 4 (omega arith) (omega arith)

crowd_taken : (j : ℕ) → 0 < j → j < 32 → taken_at crowd j ≡ true
crowd_taken j lo hi = ground arith

slot_32_never_scheduled_example : (new_pid crowd ≡ some (some 32)) × (next_pid 5 crowd ≢ 32)
slot_32_never_scheduled_example = slot_32_never_scheduled crowd 5 crowd_taken refl (omega arith)
