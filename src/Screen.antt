-- ===== src/Screen.antt =====
-- The text screen, kern/screen.c and kern/screen.h. Video memory is a function from addresses to
-- bytes; `putcar` takes a byte, and columns and rows are small enough for a `char`.
pub mod Scroll
pub mod Bounds
pub mod Writing
mod Tests
use creeks_old.Base.{ℕ, zero, suc, ◌+◌, ◌-◌, ◌*◌, ◌%◌, Bool, ◌==◌, ltb, if◌then◌else◌, update}

abbrev pub ramscreen : ℕ
ramscreen = 0xB8000

abbrev pub screenlim : ℕ
screenlim = 0xB8FA0

abbrev pub Video : Type 0
Video = ℕ → ℕ

pub record Screen : Type 0 where
  pub video : Video
  pub kx : ℕ
  pub ky : ℕ
  pub kattr : ℕ
  pub cursor_x : ℕ
  pub cursor_y : ℕ
  pub cursor_a : ℕ
  pub cursor_c : ℕ

-- The address of the character at a column and a row.
abbrev pub cell : ℕ → ℕ → ℕ
cell x y = ramscreen + 2 * x + 160 * y

-- One round of the loop of `scrollup`.
unfoldable pub scroll_cell : ℕ → ℕ → Video → Video
scroll_cell n video m =
    let tmp = video + n * 160 in
    let char = update m video (m tmp) in
    let moved = update char (video + 1) (char (tmp + 1)) in
    let blank = update (update m video 0) (video + 1) 0x07 in
    if ltb tmp screenlim then moved else blank

-- The loop of `scrollup`; a screen has 2000 cells.
unfoldable pub scroll_loop : (cells n video : ℕ) → Video → Video
scroll_loop zero n video m = m
scroll_loop (suc cells) n video m =
    let rest = scroll_loop cells n (video + 2) (scroll_cell n video m) in
    if ltb video screenlim then rest else m

unfoldable pub scrollup : ℕ → Screen → Screen
unfolding scroll_cell scroll_loop
scrollup n s = record s { video = scroll_loop 2000 n ramscreen s.video; ky = s.ky - n }

unfoldable pub show_cursor : Screen → Screen
show_cursor s =
    let video = cell s.kx s.ky in
    record s {
      cursor_x = s.kx;
      cursor_y = s.ky;
      video = update (update s.video video s.cursor_c) (video + 1) s.cursor_a;
    }

unfoldable pub hide_cursor : Screen → Screen
hide_cursor s = record s { video = update s.video (cell s.cursor_x s.cursor_y + 1) 0 }

-- `*video = c; *(video + 1) = kattr; kX++;` and the end of the row.
unfoldable pub put_char : ℕ → Screen → Screen
put_char c s =
    let video = cell s.kx s.ky in
    let written = update (update s.video video c) (video + 1) s.kattr in
    if ltb 79 (s.kx + 1)
    then record s { video = written; kx = 0; ky = s.ky + 1 }
    else record s { video = written; kx = s.kx + 1 }

-- The branches of `putcar`.
unfoldable pub place_char : ℕ → Screen → Screen
unfolding put_char
place_char c s =
    if c == 10
    then record s { kx = 0; ky = s.ky + 1 }
    else if c == 8
    then (if s.kx == 0
        then s
        else record s { video = update s.video (cell s.kx s.ky + 1) 0; kx = s.kx - 1 })
    else if c == 9
    then record s { kx = s.kx + 8 - s.kx % 8 }
    else if c == 13
    then record s { kx = 0 }
    else put_char c s

-- `if (kY > 24) scrollup(kY - 24);`
unfoldable pub keep_rows : Screen → Screen
unfolding scrollup
keep_rows s = if ltb 24 s.ky then scrollup (s.ky - 24) s else s

unfoldable pub putcar : ℕ → Screen → Screen
unfolding hide_cursor place_char keep_rows show_cursor
putcar c s = show_cursor (keep_rows (place_char c (hide_cursor s)))
