-- ===== src/Mm/Frames/Marks.antt =====
-- The macros that mark and release one frame change its mark and no other.
use creeks_old.Base.{ℕ, ◌/◌, ◌%◌, ◌≡◌, true, false, arith, ◌==◌, if◌then◌else◌}
use creeks_old.Base.Bits.{bit_at-set_bit, bit_at-clear_bit, set_bit-lt, clear_bit-le}
use creeks_old.Mm.Frames.{
  page_size, Bitmap, set_page_frame_used, release_page_frame, is_used, HoldsBytes,
}

-- Marking a page changes that mark only.
pub is_used-set :
    (m : Bitmap) (page q : ℕ)
    → is_used (set_page_frame_used page m) q ≡ (if q == page then true else is_used m q)
unfolding set_page_frame_used
is_used-set m page q = ground (arith, bit_at-set_bit (m (page / 8)) (page % 8) (q % 8))

pub set_page_frame_used-HoldsBytes :
    (m : Bitmap) (page : ℕ) → HoldsBytes m → HoldsBytes (set_page_frame_used page m)
unfolding set_page_frame_used
set_page_frame_used-HoldsBytes m page h i =
    ground (arith, h i, set_bit-lt 8 (m (page / 8)) (page % 8) (h (page / 8)) (omega arith))

-- Releasing the frame of an address clears the mark of its page only, whatever the offset.
pub is_used-release :
    (m : Bitmap) (p_addr q : ℕ)
    → is_used (release_page_frame p_addr m) q
      ≡ (if q == p_addr / page_size then false else is_used m q)
unfolding release_page_frame
is_used-release m p_addr q =
    ground (arith, bit_at-clear_bit (m (p_addr / page_size / 8)) (p_addr / page_size % 8) (q % 8))

pub release_page_frame-HoldsBytes :
    (m : Bitmap) (p_addr : ℕ) → HoldsBytes m → HoldsBytes (release_page_frame p_addr m)
unfolding release_page_frame
release_page_frame-HoldsBytes m p_addr h i = ground (
  arith,
  h i,
  h (p_addr / page_size / 8),
  clear_bit-le (m (p_addr / page_size / 8)) (p_addr / page_size % 8),
)
