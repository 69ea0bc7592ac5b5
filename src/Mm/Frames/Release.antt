-- ===== src/Mm/Frames/Release.antt =====
-- `release_page_frame` undoes `get_page_frame`.
use creeks_old.Base.{ℕ, ◌+◌, ◌*◌, ◌/◌, ◌%◌, ◌≡◌, ◌≢◌, refl, arith}
use creeks_old.Base.Bits.{bits_ext}
use creeks_old.Mm.Frames.{
  page_size, minus_one, Bitmap, release_page_frame, get_page_frame, is_used, HoldsBytes,
}
use creeks_old.Mm.Frames.Marks.{is_used-release, release_page_frame-HoldsBytes}
use creeks_old.Mm.Frames.Alloc.{get_page_frame-Allocated, Allocated, frame, exhausted}

-- Two bitmaps of bytes with the same marks are the same, byte by byte.
pub bitmap_ext :
    (m n : Bitmap)
    → HoldsBytes m
    → HoldsBytes n
    → ((q : ℕ) → is_used m q ≡ is_used n q)
    → (i : ℕ) → m i ≡ n i
bitmap_ext m n hm hn same i = bits_ext 8 (m i) (n i) (hm i) (hn i) λ k hk.
    let d : (8 * i + k) / 8 ≡ i = omega arith in
    let r : (8 * i + k) % 8 ≡ k = omega arith in rw r at (rw d at (same (8 * i + k)))

restores :
    (m : Bitmap) {r : ℕ × Bitmap}
    → Allocated m r
    → HoldsBytes m
    → r.0 ≢ minus_one
    → (i : ℕ) → release_page_frame r.0 r.1 i ≡ m i
restores m (exhausted full) h ne i = absurd (ne refl)
restores m (frame page {m'} lt free low marks bytes) h ne i =
    bitmap_ext (release_page_frame (page * page_size) m') m
      (release_page_frame-HoldsBytes m' (page * page_size) bytes) h
      (λ q. ground (arith, is_used-release m' (page * page_size) q, marks q)) i

-- On a bitmap of bytes, when `get_page_frame` does not return -1, releasing the frame at the
-- address that it returns gives back the bitmap that it started from, byte by byte.
pub release_page_frame-get_page_frame :
    (m : Bitmap)
    → HoldsBytes m
    → (get_page_frame m).0 ≢ minus_one
    → (i : ℕ) → release_page_frame (get_page_frame m).0 (get_page_frame m).1 i ≡ m i
release_page_frame-get_page_frame m h ne i = restores m (get_page_frame-Allocated m h) h ne i
