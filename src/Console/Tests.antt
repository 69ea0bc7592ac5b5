-- ===== src/Console/Tests.antt =====
-- A run of the console, and its theorems at concrete values.
use creeks_old.Base.{ℕ, ◌+◌, length, ◌≡◌, ◌≢◌, refl, none, some, true, List, [], ◌∷◌, All, arith}
use creeks_old.Process.{ready}
use creeks_old.Console.{Consoles, reader, putc_console}
use creeks_old.Console.Reading.{start_read, end_read, console_read-edits}
use creeks_old.Console.Line.{IsEditing, Holds, edits, edit, type_bytes, type_bytes-IsEditing}

-- Process 3 reads from terminal 0 in mode 1.
abbrev pub reading : Consoles
reading = record {
  terminals = λ t. record { pread = some 3; pwrite = none };
  consoles = λ p. record { term = 0; inb = λ i. 0; inlock = true; keypos = 0; mode = 1 };
  current_term = some 0;
  states = λ p. ready;
  screen = record {
    video = λ a. 0;
    kx = 0;
    ky = 8;
    kattr = 7;
    cursor_x = 0;
    cursor_y = 8;
    cursor_a = 0x40;
    cursor_c = 32;
  };
}

-- "l", "x", a backspace, "s"
abbrev keys : List ℕ
keys = 108 ∷ 120 ∷ 8 ∷ 115 ∷ []

not_newlines : All (λ c. c ≢ 10) keys
not_newlines = (
  λ e. omega (arith, e),
  (λ e. omega (arith, e), (λ e. omega (arith, e), (λ e. omega (arith, e), tt))),
)

keys_edited : edits keys [] ≡ 115 ∷ 108 ∷ []
unfolding edits edit
keys_edited = refl

reading-IsEditing : IsEditing 3 [] reading
unfolding reader Holds
reading-IsEditing = record {
  reading = refl;
  buffered = λ e. omega (arith, e);
  position = refl;
  buffer = tt;
  fits = omega arith;
}

type_bytes-IsEditing_example : IsEditing 3 (edits keys []) (type_bytes keys reading)
type_bytes-IsEditing_example =
    type_bytes-IsEditing 3 keys [] reading not_newlines (omega arith) reading-IsEditing

-- Their line has no zero byte.
not_zeros : All (λ c. c ≢ 0) (edits keys [])
unfolding edits edit
not_zeros = (λ e. omega (arith, e), (λ e. omega (arith, e), tt))

console_read-edits_example :
    let k' = putc_console 10 (type_bytes keys (start_read 3 reading)) in
    (m' : ℕ → ℕ) × ((end_read (length (edits keys []) + 2) 0x5000 3 k' (λ a. 7)
        ≡ some (length (edits keys []) + 1, m'))
      × (Holds (λ j. m' (0x5000 + j)) (10 ∷ edits keys [])
          × (m' (0x5000 + (length (edits keys []) + 1)) ≡ 0)))
console_read-edits_example =
    console_read-edits 3 0 0x5000 keys reading (λ a. 7) refl refl refl (λ e. omega (arith, e)) refl
      not_newlines not_zeros (omega arith)
