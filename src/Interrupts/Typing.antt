-- ===== src/Interrupts/Typing.antt =====
-- Texts typed on the keyboard of kern/interrupt.c.
use creeks_old.Base.{
  ℕ, ◌+◌, ◌-◌, ◌%◌, ◌<◌, ◌≡◌, ◌≢◌, ◌∙◌, refl, ap, ap₂, Bool, true, false, ==_of_ne, lt→ltb, le→ltb,
  ◌||◌, List, [], ◌∷◌, ◌++◌, All, map, arith,
}
use creeks_old.Console.{Consoles, putc_console}
use creeks_old.Console.Line.{type_bytes}
use creeks_old.Interrupts.{Keyboard, key_byte, key_down, key_up, isr_kbd_int}

pub data Shift : Type 0 where
  no_shift left_shift right_shift : Shift

abbrev pub is_shift : Shift → Bool
is_shift no_shift = false
is_shift left_shift = true
is_shift right_shift = true

-- A key by its number, with or without a shift key.
pub record Stroke : Type 0 where
  pub key : ℕ
  pub shift : Shift

-- A key that types a byte of the table: no shift, control or alt key, and a number below 0x61.
pub record IsOrdinary (s : Stroke) : Type 0 where
  pub small : s.key < 0x61
  pub no_lshift : s.key ≢ 0x29
  pub no_rshift : s.key ≢ 0x35
  pub no_ctrl : s.key ≢ 0x1C
  pub no_alt : s.key ≢ 0x37

-- The codes that the keyboard sends for a stroke: the key goes down and up, between those of shift.
abbrev pub codes_of : ℕ → Shift → List ℕ
codes_of key no_shift = (key + 1) ∷ (key + 0x81) ∷ []
codes_of key left_shift = 0x2A ∷ (key + 1) ∷ (key + 0x81) ∷ 0xAA ∷ []
codes_of key right_shift = 0x36 ∷ (key + 1) ∷ (key + 0x81) ∷ 0xB6 ∷ []

abbrev pub codes : Stroke → List ℕ
codes s = codes_of s.key s.shift

unfoldable pub all_codes : List Stroke → List ℕ
all_codes [] = []
all_codes (s ∷ ss) = codes s ++ all_codes ss

-- The handler for each code in order.
unfoldable pub handle_all : (behind : ℕ → ℕ) → List ℕ → Keyboard → Keyboard
unfolding isr_kbd_int
handle_all behind [] k = k
handle_all behind (c ∷ cs) k = handle_all behind cs (isr_kbd_int behind c k)

abbrev pub released : Consoles → Keyboard
released c = record { lshift_enable = false; rshift_enable = false; consoles = c }

abbrev pressed : Consoles → Keyboard
pressed c = record { lshift_enable = true; rshift_enable = false; consoles = c }

abbrev pressed_right : Consoles → Keyboard
pressed_right c = record { lshift_enable = false; rshift_enable = true; consoles = c }

module _ (behind : ℕ → ℕ) where
  handle_all-append :
      (xs ys : List ℕ) (k : Keyboard)
      → handle_all behind (xs ++ ys) k ≡ handle_all behind ys (handle_all behind xs k)
  unfolding handle_all
  handle_all-append [] ys k = refl
  handle_all-append (x ∷ xs) ys k = handle_all-append xs ys (isr_kbd_int behind x k)

  down_lem :
      (s : Stroke)
      → IsOrdinary s
      → (k : Keyboard)
      → isr_kbd_int behind (s.key + 1) k ≡ record k {
        consoles =
            putc_console (key_byte behind s.key (k.lshift_enable || k.rshift_enable)) k.consoles;
      }
  unfolding isr_kbd_int key_down
  down_lem s o k =
      let i : (s.key + 1 + 0xFF) % 0x100 ≡ s.key = omega (arith, o.small) in
      rw
        (
          i,
          lt→ltb s.key 0x80 (omega (arith, o.small)),
          ==_of_ne s.key 0x29 o.no_lshift,
          ==_of_ne s.key 0x35 o.no_rshift,
          ==_of_ne s.key 0x1C o.no_ctrl,
          ==_of_ne s.key 0x37 o.no_alt,
        )
        refl

  up_lem : (s : Stroke) → IsOrdinary s → (k : Keyboard) → isr_kbd_int behind (s.key + 0x81) k ≡ k
  unfolding isr_kbd_int key_up
  up_lem s o k =
      let i : (s.key + 0x81 + 0xFF) % 0x100 ≡ s.key + 0x80 = omega (arith, o.small) in
      let j : s.key + 0x80 - 0x80 ≡ s.key = omega arith in
      rw
        (
          i,
          le→ltb (s.key + 0x80) 0x80 (omega arith),
          j,
          ==_of_ne s.key 0x29 o.no_lshift,
          ==_of_ne s.key 0x35 o.no_rshift,
        )
        refl

  shift_down : (c : Consoles) → isr_kbd_int behind 0x2A (released c) ≡ pressed c
  unfolding isr_kbd_int key_down
  shift_down c = refl

  shift_up : (c : Consoles) → isr_kbd_int behind 0xAA (pressed c) ≡ released c
  unfolding isr_kbd_int key_up
  shift_up c = refl

  right_down : (c : Consoles) → isr_kbd_int behind 0x36 (released c) ≡ pressed_right c
  unfolding isr_kbd_int key_down
  right_down c = refl

  right_up : (c : Consoles) → isr_kbd_int behind 0xB6 (pressed_right c) ≡ released c
  unfolding isr_kbd_int key_up
  right_up c = refl

  -- A stroke between the codes of a shift key.
  between_shift :
      (s : Stroke)
      → IsOrdinary s
      → (down up : ℕ) (k : Keyboard) (c : Consoles) → k.consoles ≡ c
      → (k.lshift_enable || k.rshift_enable) ≡ true
      → isr_kbd_int behind down (released c) ≡ k
      → ((d : Consoles) → isr_kbd_int behind up (record k { consoles = d }) ≡ released d)
      → handle_all behind (down ∷ (s.key + 1) ∷ (s.key + 0x81) ∷ up ∷ []) (released c)
        ≡ released (putc_console (key_byte behind s.key true) c)
  unfolding handle_all
  between_shift s o down up k c same shift goes_down goes_up =
      let handle = isr_kbd_int behind in
      let typed = putc_console (key_byte behind s.key true) c in
      ap (λ k. handle up (handle (s.key + 0x81) (handle (s.key + 1) k))) goes_down
      ∙ (ap (λ k. handle up (handle (s.key + 0x81) k))
            (down_lem s o k
              ∙ ap₂ (λ b d. record k { consoles = putc_console (key_byte behind s.key b) d }) shift
                  same)
          ∙ (ap (handle up) (up_lem s o (record k { consoles = typed })) ∙ goes_up typed))

  stroke_lem :
      (s : Stroke)
      → IsOrdinary s
      → (c : Consoles)
      → handle_all behind (codes s) (released c)
        ≡ released (putc_console (key_byte behind s.key (is_shift s.shift)) c)
  unfolding handle_all
  stroke_lem s o c = by_shift s.shift
    where
      by_shift :
          (t : Shift)
          → handle_all behind (codes_of s.key t) (released c)
            ≡ released (putc_console (key_byte behind s.key (is_shift t)) c)
      by_shift no_shift =
          ap (isr_kbd_int behind (s.key + 0x81)) (down_lem s o (released c)) ∙ up_lem s o _
      by_shift left_shift =
          between_shift s o 0x2A 0xAA (pressed c) c refl refl (shift_down c) shift_up
      by_shift right_shift =
          between_shift s o 0x36 0xB6 (pressed_right c) c refl refl (right_down c) right_up

  -- For keys of the table other than shift, control and alt, each released before the next one goes
  -- down, and any of them between the press and the release of the left or the right shift key, with no
  -- shift key held before: the handler of the keyboard, run for every code of these strokes, gives putc_console
  -- exactly the bytes of the keys from the table, those with shift for the keys typed with shift, in the
  -- order of the strokes, and leaves no shift key held.
  pub handle_all-type_bytes :
      (strokes : List Stroke) (c : Consoles)
      → All IsOrdinary strokes
      → handle_all behind (all_codes strokes) (released c)
        ≡ released (type_bytes (map (λ s. key_byte behind s.key (is_shift s.shift)) strokes) c)
  unfolding handle_all all_codes type_bytes
  handle_all-type_bytes [] c all = refl
  handle_all-type_bytes (s ∷ ss) c (o, all) =
      handle_all-append (codes s) (all_codes ss) (released c)
      ∙ (ap (handle_all behind (all_codes ss)) (stroke_lem s o c)
          ∙ handle_all-type_bytes ss (putc_console (key_byte behind s.key (is_shift s.shift)) c)
              all)
