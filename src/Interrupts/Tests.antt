-- ===== src/Interrupts/Tests.antt =====
-- Witnesses for kern/interrupt.c.
use creeks_old.Base.{ℕ, ◌<◌, ◌≡◌, List, [], ◌∷◌, All, arith}
use creeks_old.Console.Line.{type_bytes}
use creeks_old.Console.Tests.{reading}
use creeks_old.Interrupts.{key_byte}
use creeks_old.Interrupts.Clock.{count_tics, count_tics_lem}
use creeks_old.Interrupts.Typing.{
  Shift, no_shift, right_shift, Stroke, IsOrdinary, all_codes, handle_all, released,
  handle_all-type_bytes,
}

count_tics_example :
    ((count_tics 250 (record { tic = 60; sec = 3 })).sec ≡ 6)
    × ((count_tics 250 (record { tic = 60; sec = 3 })).tic ≡ 10)
count_tics_example = count_tics_lem 250 (record { tic = 60; sec = 3 }) (omega arith)

-- The keys of "q", of a capital "S" and of enter.
abbrev strokes : List Stroke
strokes =
    record { key = 29; shift = no_shift }
    ∷ record { key = 30; shift = right_shift }
    ∷ record { key = 27; shift = no_shift }
    ∷ []

ordinary :
    (key : ℕ)
    → key < 41
    → 28 < key
    → (shift : Shift) → IsOrdinary (record { key = key; shift = shift })
ordinary key h l shift = record {
  small = omega (arith, h);
  no_lshift = λ e. omega (arith, h, e);
  no_rshift = λ e. omega (arith, h, e);
  no_ctrl = λ e. omega (arith, l, e);
  no_alt = λ e. omega (arith, h, e);
}

strokes_lem : All IsOrdinary strokes
strokes_lem = (
  ordinary 29 (omega arith) (omega arith) no_shift,
  (
    ordinary 30 (omega arith) (omega arith) right_shift,
    (
      record {
        small = omega arith;
        no_lshift = λ e. omega (arith, e);
        no_rshift = λ e. omega (arith, e);
        no_ctrl = λ e. omega (arith, e);
        no_alt = λ e. omega (arith, e);
      },
      tt,
    ),
  ),
)

handle_all-type_bytes_example :
    handle_all (λ i. 0) (30 ∷ 158 ∷ 54 ∷ 31 ∷ 159 ∷ 182 ∷ 28 ∷ 156 ∷ []) (released reading)
    ≡ released (type_bytes (113 ∷ 83 ∷ 10 ∷ []) reading)
unfolding all_codes key_byte
handle_all-type_bytes_example = handle_all-type_bytes (λ i. 0) strokes reading strokes_lem
