-- ===== src/Mm/Frames/Tests.antt =====
-- Runs of the frame allocator, and its theorems at concrete bitmaps.
use creeks_old.Base.{◌*◌, ◌≡◌, refl, ◌≢◌, arith, ◌==◌, if◌then◌else◌}
use creeks_old.Mm.Frames.{
  Bitmap, page_size, minus_one, get_page_frame, release_page_frame, HoldsBytes,
}
use creeks_old.Mm.Frames.Alloc.{Allocated, get_page_frame-Allocated}
use creeks_old.Mm.Frames.Release.{release_page_frame-get_page_frame}

-- Pages 0 to 9 are used.
abbrev ten_used : Bitmap
ten_used i = if i == 0 then 0xFF else if i == 1 then 0x03 else 0

ten_used-HoldsBytes : HoldsBytes ten_used
ten_used-HoldsBytes i = ground arith

tenth_page : (get_page_frame ten_used).0 ≡ 10 * page_size
unfolding get_page_frame creeks_old.Base.Bits.bit_at
tenth_page = refl

get_page_frame-Allocated_example : Allocated ten_used (get_page_frame ten_used)
get_page_frame-Allocated_example = get_page_frame-Allocated ten_used ten_used-HoldsBytes

tenth_page-ne : (get_page_frame ten_used).0 ≢ minus_one
tenth_page-ne = rw tenth_page (omega arith)

release_page_frame-get_page_frame_example :
    release_page_frame (get_page_frame ten_used).0 (get_page_frame ten_used).1 1 ≡ 0x03
release_page_frame-get_page_frame_example =
    release_page_frame-get_page_frame ten_used ten_used-HoldsBytes tenth_page-ne 1
