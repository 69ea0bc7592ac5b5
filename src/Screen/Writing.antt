-- ===== src/Screen/Writing.antt =====
-- What `putcar` of kern/screen.c shows: printable characters and the end of the last row.
use creeks_old.Base.{
  subst, ap₂, ℕ, ◌+◌, ◌-◌, ◌/◌, ◌≤◌, ◌<◌, ◌≡◌, ◌≢◌, ◌⊎◌, ◌∙◌, refl, sym, ap, inl, ◌==◌, ==_of_ne,
  if◌then◌else◌, update, arith, List, [], ◌∷◌, length, All,
}
use creeks_old.Screen.{
  Screen, ramscreen, cell, scrollup, show_cursor, hide_cursor, place_char, put_char, keep_rows,
  putcar,
}
use creeks_old.Screen.Scroll.{scrolled, scrollup-scrolled}
use creeks_old.Screen.Bounds.{keep_rows_above, keep_rows_last}

-- Bytes that are shown as characters.
unfoldable pub IsPrintable : ℕ → Type 0
IsPrintable c = (c ≢ 8) × ((c ≢ 9) × ((c ≢ 10) × (c ≢ 13)))

-- The cursor is shown where the output goes on, as `putcar` leaves it.
abbrev pub IsShown : Screen → Type 0
IsShown s = (s.cursor_x ≡ s.kx) × (s.cursor_y ≡ s.ky)

-- From `s` to `s'` the byte `c` was typed: it stands at the output's place, in the colours of the
-- output, and the cursor follows it, at the first column of the next row behind the end of a row.
pub record Typed (c : ℕ) (s s' : Screen) : Type 0 where
  pub column : s'.kx ≡ (if s.kx == 79 then 0 else s.kx + 1)
  pub row : s'.ky ≡ (if s.kx == 79 then s.ky + 1 else s.ky)
  pub cursor : IsShown s'
  pub char : s'.video (cell s.kx s.ky) ≡ c
  pub attribute : s'.video (cell s.kx s.ky + 1) ≡ s.kattr
  pub cursor_char : s'.video (cell s.kx s.ky + 2) ≡ s.cursor_c
  pub cursor_attribute : s'.video (cell s.kx s.ky + 3) ≡ s.cursor_a
  pub others : (a : ℕ) → (a < cell s.kx s.ky) ⊎ (cell s.kx s.ky + 3 < a) → s'.video a ≡ s.video a

placed_text : (c : ℕ) (s : Screen) → IsPrintable c → place_char c s ≡ put_char c s
unfolding place_char IsPrintable
placed_text c s (b, (t, (n, r))) =
    rw (==_of_ne c 8 b, ==_of_ne c 9 t, ==_of_ne c 10 n, ==_of_ne c 13 r) refl

row_of_text : (c : ℕ) (s : Screen) → (put_char c s).ky ≤ s.ky + (s.kx + 1) / 80
unfolding put_char
row_of_text c s = ground arith

shown_text :
    (c : ℕ) (s : Screen)
    → s.kx ≤ 79
    → IsShown s
    → Typed c s (show_cursor (put_char c (hide_cursor s)))
unfolding put_char show_cursor hide_cursor
shown_text c s x (cx, cy) = record {
  column = ground arith;
  row = ground arith;
  cursor = (refl, refl);
  char = ground arith;
  attribute = ground arith;
  cursor_char = ground arith;
  cursor_attribute = ground arith;
  others = λ a out. ground arith;
}

row_hidden :
    (c : ℕ) (s : Screen) → s.ky + (s.kx + 1) / 80 ≤ 24 → (put_char c (hide_cursor s)).ky ≤ 24
unfolding hide_cursor
row_hidden c s y = omega (arith, row_of_text c (hide_cursor s))

-- putcar shows a printable byte where the output stands, in the output's colours, and moves the
-- cursor to the next place, the first one of the next row behind the end of a row, unless that would
-- be below the last row; every other byte of memory stays.
pub putcar-Typed :
    (c : ℕ) (s : Screen)
    → IsPrintable c
    → s.kx ≤ 79
    → s.ky + (s.kx + 1) / 80 ≤ 24
    → IsShown s
    → Typed c s (putcar c s)
unfolding putcar
putcar-Typed c s p x y shown =
    let h = hide_cursor s in
    let above = keep_rows_above (put_char c h) (row_hidden c s y) in
    let e : keep_rows (place_char c h) ≡ put_char c h = ap keep_rows (placed_text c h p) ∙ above in
    subst (λ t. Typed c s (show_cursor t)) (sym e) (shown_text c s x shown)

-- `putcar` at each byte of a text.
unfoldable pub put_text : List ℕ → Screen → Screen
put_text [] s = s
put_text (c ∷ cs) s = put_text cs (putcar c s)

-- The cells of a text from the output's place on.
unfoldable pub Shows : List ℕ → ℕ → Screen → Type 0
Shows [] at s = Unit
Shows (c ∷ cs) at s = (s.video at ≡ c) × Shows cs (at + 2) s

-- A text of printable bytes that ends within the row is shown in the cells from the output's place
-- on; the output moves by its length, and what stands in front of it stays.
pub put_text-Shows :
    (cs : List ℕ) (s : Screen)
    → All IsPrintable cs
    → s.kx + length cs ≤ 79
    → s.ky ≤ 24
    → IsShown s
    → Shows cs (cell s.kx s.ky) (put_text cs s)
      × (((put_text cs s).kx ≡ s.kx + length cs)
          × (((put_text cs s).ky ≡ s.ky)
              × ((a : ℕ) → a < cell s.kx s.ky → (put_text cs s).video a ≡ s.video a)))
unfolding put_text Shows
put_text-Shows [] s p x y shown = (tt, (omega arith, (refl, λ a h. refl)))
put_text-Shows (c ∷ cs) s (p, ps) x y shown =
    let t = putcar-Typed c s p (omega arith) (omega arith) shown in
    let s1 = putcar c s in
    let column : s1.kx ≡ s.kx + 1 = ground (arith, t.column) in
    let row : s1.ky ≡ s.ky = ground (arith, t.row) in
    let (rest, (kx, (ky, before))) =
      put_text-Shows cs s1 ps (omega (arith, column)) (omega (arith, row)) t.cursor in
    let at : cell s1.kx s1.ky ≡ cell s.kx s.ky + 2 = omega (arith, column, row) in
    (
      (before (cell s.kx s.ky) (omega (arith, at)) ∙ t.char, rw at at (rest)),
      (
        omega (arith, kx, column),
        (ky ∙ row, λ a h. before a (omega (arith, at)) ∙ t.others a (inl h)),
      ),
    )

-- The screen behind the newline, before it is scrolled.
abbrev next_row : Screen → Screen
next_row s = record s {
  video = update s.video (cell s.cursor_x s.cursor_y + 1) 0;
  kx = 0;
  ky = s.ky + 1;
}

newline_placed : (s : Screen) → place_char 10 (hide_cursor s) ≡ next_row s
unfolding place_char hide_cursor
newline_placed s = refl

-- A byte of video memory under a cursor at `at`.
unfoldable pub covered : (at char attribute a byte : ℕ) → ℕ
covered at char attribute a byte = if a == at + 1 then attribute else if a == at then char else byte

show_video :
    (s : Screen) (a : ℕ)
    → (show_cursor s).video a ≡ covered (cell s.kx s.ky) s.cursor_c s.cursor_a a (s.video a)
unfolding show_cursor covered
show_video s a = refl

place_kept :
    (n : ℕ) (s : Screen)
    → ((scrollup n s).cursor_c ≡ s.cursor_c)
      × (((scrollup n s).cursor_a ≡ s.cursor_a) × ((scrollup n s).kx ≡ s.kx))
unfolding scrollup
place_kept n s = (refl, (refl, refl))

column_kept : (s : Screen) → ((show_cursor s).kx ≡ s.kx) × ((show_cursor s).ky ≡ s.ky)
unfolding show_cursor
column_kept s = (refl, refl)

-- The cursor over a scrolled screen.
abbrev ScrolledBy : ℕ → Screen → Screen → Type 0
ScrolledBy n t s' =
    (s'.kx ≡ t.kx)
    × ((s'.ky ≡ t.ky - n)
        × ((a : ℕ)
            → s'.video a
              ≡ covered (cell t.kx (t.ky - n)) t.cursor_c t.cursor_a a
                  (scrolled n ramscreen t.video a)))

scrolled_shown : (n : ℕ) (t : Screen) → ScrolledBy n t (show_cursor (scrollup n t))
scrolled_shown n t =
    let u = scrollup n t in
    let (video, row) = scrollup-scrolled n t in
    let (cc, (ca, x)) = place_kept n t in
    let (sx, sy) = column_kept u in
    (
      sx ∙ x,
      (
        sy ∙ row,
        λ a.
            show_video u a
            ∙ (ap₂ (λ at b. covered at u.cursor_c u.cursor_a a b) (ap₂ cell x row) (video a)
                ∙ ap₂ (λ c d. covered (cell t.kx (t.ky - n)) c d a (scrolled n ramscreen t.video a))
                    cc ca),
      ),
    )

-- A newline in the last row scrolls the screen by one row: the output goes to the first column of
-- the last row, every byte of the screen becomes the one that stood a row below it, the last row
-- becomes blank, and the cursor is shown in its first column.
pub putcar_newline_scrolls :
    (s : Screen)
    → s.ky ≡ 24
    → IsShown s
    → ((putcar 10 s).kx ≡ 0)
      × (((putcar 10 s).ky ≡ 24)
          × ((a : ℕ)
              → (putcar 10 s).video a
                ≡ covered
                    (cell 0 24)
                    s.cursor_c
                    s.cursor_a
                    a
                    (scrolled 1 ramscreen (update s.video (cell s.kx 24 + 1) 0) a)))
unfolding putcar
putcar_newline_scrolls s row (cx, cy) =
    let t = next_row s in
    let one : s.ky + 1 - 24 ≡ 1 = omega (arith, row) in
    let e =
      ap keep_rows (newline_placed s)
      ∙ (keep_rows_last t (omega (arith, row)) ∙ ap (λ n. scrollup n t) one) in
    let (x, (y, video)) =
      subst (λ (u : Screen). ScrolledBy 1 t (show_cursor u)) (sym e) (scrolled_shown 1 t) in
    let last : cell 0 (s.ky + 1 - 1) ≡ cell 0 24 = omega (arith, row) in
    let old : cell s.cursor_x s.cursor_y + 1 ≡ cell s.kx 24 + 1 = omega (arith, row, cx, cy) in
    (
      x,
      (
        omega (arith, y, row),
        λ a.
            video a
            ∙ ap₂
                (λ at p.
                  covered at s.cursor_c s.cursor_a a (scrolled 1 ramscreen (update s.video p 0) a))
                last old,
      ),
    )
