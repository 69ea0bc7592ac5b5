-- ===== src/Lifecycle/Pages.antt =====
-- The frames that sys_exit of kern/syscalls/sys_exit.c gives back.
use creeks_old.Base.{
  ℕ, ◌/◌, ◌≡◌, ◌∙◌, refl, Bool, false, List, [], ◌∷◌, ◌==◌, ◌||◌, if◌then◌else◌, arith,
}
use creeks_old.Mm.Frames.{page_size, Bitmap, is_used, release_page_frame}
use creeks_old.Mm.Frames.Marks.{is_used-release}
use creeks_old.Lifecycle.{release_pages}

-- Whether one of the addresses is in the page `q`.
unfoldable pub covers : List ℕ → ℕ → Bool
covers [] q = false
covers (p_addr ∷ pages) q = (q == p_addr / page_size) || covers pages q

-- Releasing the pages of a process frees the frames of its pages and leaves the mark of every other
-- frame as it was.
pub is_used-release_pages :
    (pages : List ℕ) (m : Bitmap) (q : ℕ)
    → is_used (release_pages pages m) q ≡ (if covers pages q then false else is_used m q)
unfolding release_pages covers
is_used-release_pages [] m q = refl
is_used-release_pages (p_addr ∷ pages) m q =
    is_used-release_pages pages (release_page_frame p_addr m) q
    ∙ ground (arith, is_used-release m p_addr q)
