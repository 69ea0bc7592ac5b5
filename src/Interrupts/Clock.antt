-- ===== src/Interrupts/Clock.antt =====
-- The clock of kern/interrupt.c over many interrupts.
use creeks_old.Base.{ℕ, zero, suc, ◌+◌, ◌*◌, ◌/◌, ◌%◌, ◌<◌, ◌≡◌, ◌==◌, Bool-cases, inl, inr, arith}
use creeks_old.Interrupts.{Tics, count_tic}

-- The counters after a number of interrupts.
unfoldable pub count_tics : ℕ → Tics → Tics
unfolding count_tic
count_tics zero c = c
count_tics (suc n) c = count_tics n (count_tic c)

count_tic_lem :
    (c : Tics)
    → c.tic < 100
    → ((count_tic c).tic < 100)
      × ((count_tic c).sec * 100 + (count_tic c).tic ≡ c.sec * 100 + c.tic + 1)
unfolding count_tic
count_tic_lem c h = elim (Bool-cases ((c.tic + 1) % 100 == 0)) [
  | inl full ↦ rw full (omega arith, ground (arith, full, h))
  | inr more ↦ rw more (ground (arith, more, h), omega arith)
]

total :
    (n : ℕ) (c : Tics)
    → c.tic < 100
    → ((count_tics n c).tic < 100)
      × ((count_tics n c).sec * 100 + (count_tics n c).tic ≡ c.sec * 100 + c.tic + n)
unfolding count_tics
total zero c h = (h, omega arith)
total (suc n) c h =
    let (small, one) = count_tic_lem c h in
    let (small', all) = total n (count_tic c) small in (small', omega (arith, one, all))

-- From a clock that has counted no full hundred, after n interrupts isr_clock_int has counted the tics
-- and the seconds of all n, with the tics below 100.
pub count_tics_lem :
    (n : ℕ) (c : Tics)
    → c.tic < 100
    → ((count_tics n c).sec ≡ c.sec + (c.tic + n) / 100)
      × ((count_tics n c).tic ≡ (c.tic + n) % 100)
count_tics_lem n c h =
    let (small, all) = total n c h in (omega (arith, small, all), omega (arith, small, all))
