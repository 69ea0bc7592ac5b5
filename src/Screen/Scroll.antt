-- ===== src/Screen/Scroll.antt =====
-- `scrollup` of kern/screen.c as one assignment to the whole screen.
use creeks_old.Base.{
  ℕ, zero, suc, ◌+◌, ◌-◌, ◌*◌, ◌%◌, ◌≤◌, ◌<◌, ◌≡◌, ◌∙◌, refl, inl, inr, Bool-cases, leb, ltb, ◌==◌,
  ◌&&◌, if◌then◌else◌, arith,
}
use creeks_old.Screen.{Video, ramscreen, screenlim, scroll_cell, scroll_loop, Screen, scrollup}

-- Video memory with the bytes of the screen from `from` on moved up by `n` rows.
unfoldable pub scrolled : (n from : ℕ) → Video → Video
scrolled n from m a =
    if leb from a && ltb a screenlim
    then (if ltb (a + n * 160) screenlim then m (a + n * 160) else if a % 2 == 0 then 0 else 0x07)
    else m a

cell_step :
    (n video : ℕ) (m : Video) (a : ℕ)
    → video % 2 ≡ 0
    → video < screenlim
    → scrolled n (video + 2) (scroll_cell n video m) a ≡ scrolled n video m a
unfolding scrolled scroll_cell
cell_step n video m a even h = ground arith

past_end : (n video : ℕ) (m : Video) (a : ℕ) → screenlim ≤ video → m a ≡ scrolled n video m a
unfolding scrolled
past_end n video m a h = ground arith

scroll_loop-scrolled :
    (cells n video : ℕ) (m : Video) (a : ℕ)
    → video % 2 ≡ 0
    → screenlim ≤ video + 2 * cells
    → scroll_loop cells n video m a ≡ scrolled n video m a
unfolding scroll_loop
scroll_loop-scrolled zero n video m a even h = past_end n video m a (omega arith)
scroll_loop-scrolled (suc cells) n video m a even h = elim (Bool-cases (ltb video screenlim)) [
  | inl more ↦ rw more (
      scroll_loop-scrolled cells n (video + 2) (scroll_cell n video m) a (omega arith) (omega arith)
      ∙ cell_step n video m a even (ground arith))
  | inr done ↦ rw done (past_end n video m a (ground arith))
]

-- scrollup moves the whole screen up: a byte of the screen gets the byte that stood n rows below it,
-- and the bytes for which there is no such row become the blank character with its attribute; no
-- byte outside the screen changes, and the row of the output goes down by n, at most to 0.
pub scrollup-scrolled :
    (n : ℕ) (s : Screen)
    → ((a : ℕ) → (scrollup n s).video a ≡ scrolled n ramscreen s.video a)
      × ((scrollup n s).ky ≡ s.ky - n)
unfolding scrollup
scrollup-scrolled n s =
    (λ a. scroll_loop-scrolled 2000 n ramscreen s.video a (omega arith) (omega arith), refl)
