-- ===== src/Screen/Bounds.antt =====
-- Where `putcar` of kern/screen.c leaves the output, and which memory it writes.
use creeks_old.Base.{
  ℕ, zero, suc, ◌+◌, ◌-◌, ◌*◌, ◌%◌, ◌≤◌, ◌<◌, ◌≡◌, ◌≢◌, ◌⊎◌, ◌∙◌, refl, sym, subst, inl, inr,
  Bool-cases, ltb, arith,
}
use creeks_old.Screen.{
  Video, Screen, ramscreen, screenlim, scrollup, show_cursor, hide_cursor, place_char, put_char,
  keep_rows, putcar,
}
use creeks_old.Screen.Scroll.{scrolled, scrollup-scrolled}

-- The output and the cursor are within 80 columns and 25 rows.
pub record IsOnScreen (s : Screen) : Type 0 where
  pub column : s.kx ≤ 79
  pub row : s.ky ≤ 24
  pub cursor_column : s.cursor_x ≤ 79
  pub cursor_row : s.cursor_y ≤ 24

-- Memory outside the screen is the same.
abbrev pub Outside : Video → Video → Type 0
Outside m m' = (a : ℕ) → (a < ramscreen) ⊎ (screenlim ≤ a) → m' a ≡ m a

-- The column and the row before the test for the last row.
abbrev pub Placed : Screen → Screen → Type 0
Placed s s' =
    (s'.kx ≤ 79)
    × ((s'.ky ≤ 25) × ((s'.cursor_x ≤ 79) × ((s'.cursor_y ≤ 24) × Outside s.video s'.video)))

hide_cursor-Outside : (s : Screen) → IsOnScreen s → Outside s.video (hide_cursor s).video
unfolding hide_cursor
hide_cursor-Outside s on a out = ground (arith, on.cursor_column, on.cursor_row)

place_char-Placed : (c : ℕ) (s : Screen) → c ≢ 9 → IsOnScreen s → Placed s (place_char c s)
unfolding place_char put_char
place_char-Placed c s no_tab on = (
  ground (arith, on.column),
  (
    ground (arith, on.row),
    (
      ground (arith, on.cursor_column),
      (ground (arith, on.cursor_row), λ a out. ground (arith, on.column, on.row)),
    ),
  ),
)

scrolled-Outside : (n : ℕ) (m : Video) → Outside m (scrolled n ramscreen m)
unfolding scrolled
scrolled-Outside n m a out = ground arith

scrolled_row :
    (n : ℕ) (s : Screen)
    → s.kx ≤ 79
    → s.ky - n ≤ 24
    → s.cursor_x ≤ 79
    → s.cursor_y ≤ 24
    → IsOnScreen (scrollup n s)
unfolding scrollup
scrolled_row n s x y cx cy = record { column = x; row = y; cursor_column = cx; cursor_row = cy }

pub keep_rows_last : (s : Screen) → 24 < s.ky → keep_rows s ≡ scrollup (s.ky - 24) s
unfolding keep_rows
keep_rows_last s h = ground arith

pub keep_rows_above : (s : Screen) → s.ky ≤ 24 → keep_rows s ≡ s
unfolding keep_rows
keep_rows_above s h = ground arith

keep_rows-Placed :
    (s s' : Screen) → Placed s s' → IsOnScreen (keep_rows s') × Outside s.video (keep_rows s').video
keep_rows-Placed s s' (x, (y, (cx, (cy, same)))) =
    let P = λ (t : Screen). IsOnScreen t × Outside s.video t.video in
    elim (Bool-cases (ltb 24 s'.ky)) [
      | inl last ↦ subst P (sym (keep_rows_last s' (ground arith))) (
        scrolled_row (s'.ky - 24) s' x (omega arith) cx cy,
        λ a out.
            (scrollup-scrolled (s'.ky - 24) s').0 a
            ∙ (scrolled-Outside (s'.ky - 24) s'.video a out ∙ same a out),
      )
      | inr above ↦
          subst P (sym (keep_rows_above s' (ground arith)))
            (record { column = x; row = ground arith; cursor_column = cx; cursor_row = cy }, same)
    ]

show_cursor-Outside :
    (s : Screen) → IsOnScreen s → IsOnScreen (show_cursor s) × Outside s.video (show_cursor s).video
unfolding show_cursor
show_cursor-Outside s on = (
  record { column = on.column; row = on.row; cursor_column = on.column; cursor_row = on.row },
  λ a out. ground (arith, on.column, on.row),
)

hidden : (s : Screen) → IsOnScreen s → IsOnScreen (hide_cursor s)
unfolding hide_cursor
hidden s on = record {
  column = on.column;
  row = on.row;
  cursor_column = on.cursor_column;
  cursor_row = on.cursor_row;
}

-- For every byte but the tab, putcar leaves the output and the cursor within the 80 columns and 25
-- rows when they are there before, and writes no byte outside the 4000 bytes of the screen.
pub putcar-IsOnScreen :
    (c : ℕ) (s : Screen)
    → c ≢ 9
    → IsOnScreen s
    → IsOnScreen (putcar c s) × Outside s.video (putcar c s).video
unfolding putcar
putcar-IsOnScreen c s no_tab on =
    let h = hide_cursor s in
    let p = place_char-Placed c h no_tab (hidden s on) in
    let (on1, out1) = keep_rows-Placed h (place_char c h) p in
    let (on2, out2) = show_cursor-Outside (keep_rows (place_char c h)) on1 in
    (on2, λ a out. out2 a out ∙ (out1 a out ∙ hide_cursor-Outside s on a out))

-- A number of calls with the same byte.
unfoldable pub repeated : ℕ → ℕ → Screen → Screen
repeated zero c s = s
repeated (suc n) c s = repeated n c (putcar c s)

tab_step :
    (s : Screen) → s.ky ≤ 24 → ((putcar 9 s).kx ≡ s.kx + 8 - s.kx % 8) × ((putcar 9 s).ky ≡ s.ky)
unfolding putcar show_cursor keep_rows place_char hide_cursor
tab_step s row = (ground arith, ground arith)

-- Tabs never end a row: n tabs from a column that is a multiple of 8 lead to the column 8 * n
-- further on in the same row, whether the row has it or not, as long as a char can hold it.
pub tabs_leave_row :
    (n : ℕ) (s : Screen)
    → s.ky ≤ 24
    → s.kx % 8 ≡ 0
    → s.kx + 8 * n < 128
    → ((repeated n 9 s).kx ≡ s.kx + 8 * n) × ((repeated n 9 s).ky ≡ s.ky)
unfolding repeated
tabs_leave_row zero s row col h = (omega arith, refl)
tabs_leave_row (suc n) s row col h =
    let (x, y) = tab_step s row in
    let (xs, ys) =
      tabs_leave_row n (putcar 9 s) (omega (arith, y)) (omega (arith, x)) (omega (arith, x)) in
    (omega (arith, x, xs), ys ∙ y)
