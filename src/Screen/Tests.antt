-- ===== src/Screen/Tests.antt =====
-- Runs of the screen, and its theorems at concrete values.
use creeks_old.Base.{ℕ, ◌≡◌, refl, arith}
use creeks_old.Screen.{
  Screen, ramscreen, scrollup, putcar, hide_cursor, show_cursor, place_char, put_char, keep_rows,
}
use creeks_old.Screen.Scroll.{scrolled, scrollup-scrolled}
use creeks_old.Screen.Bounds.{IsOnScreen, Outside, putcar-IsOnScreen}
use creeks_old.Screen.Writing.{IsPrintable, Typed, putcar-Typed}

-- The output at a column and a row of a screen full of dots.
abbrev dots : ℕ → ℕ → Screen
dots x y = record {
  video = λ a. 46;
  kx = x;
  ky = y;
  kattr = 7;
  cursor_x = x;
  cursor_y = y;
  cursor_a = 0x40;
  cursor_c = 32;
}

dots_on : IsOnScreen (dots 5 24)
dots_on = record {
  column = omega arith;
  row = omega arith;
  cursor_column = omega arith;
  cursor_row = omega arith;
}

ok_char : IsPrintable 79
unfolding IsPrintable
ok_char =
    (λ e. omega (arith, e), (λ e. omega (arith, e), (λ e. omega (arith, e), λ e. omega (arith, e))))

end_of_row : (putcar 79 (dots 79 3)).ky ≡ 4
unfolding putcar hide_cursor show_cursor place_char put_char keep_rows
end_of_row = refl

scrollup-scrolled_example :
    ((a : ℕ) → (scrollup 3 (dots 0 24)).video a ≡ scrolled 3 ramscreen (dots 0 24).video a)
    × ((scrollup 3 (dots 0 24)).ky ≡ 21)
scrollup-scrolled_example = scrollup-scrolled 3 (dots 0 24)

putcar-IsOnScreen_example :
    IsOnScreen (putcar 10 (dots 5 24)) × Outside (dots 5 24).video (putcar 10 (dots 5 24)).video
putcar-IsOnScreen_example = putcar-IsOnScreen 10 (dots 5 24) (λ e. omega (arith, e)) dots_on

putcar-Typed_example : Typed 79 (dots 79 3) (putcar 79 (dots 79 3))
putcar-Typed_example = putcar-Typed 79 (dots 79 3) ok_char (omega arith) (omega arith) (refl, refl)
