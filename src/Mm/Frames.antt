-- ===== src/Mm/Frames.antt =====
-- The physical page frames of kern/mm.c: the bitmap `mem_bitmap`, `get_page_frame`, and the macros
-- `set_page_frame_used` and `release_page_frame` of kern/mm.h.
pub mod Marks
pub mod Alloc
pub mod Release
mod Tests
use creeks_old.Base.{
  ℕ, zero, suc, ◌+◌, ◌-◌, ◌*◌, ◌/◌, ◌%◌, ◌^◌, ◌<◌, Bool, Option, none, some, ◌!=◌, if◌then◌else◌,
  update,
}
use creeks_old.Base.Bits.{bit_at, set_bit, clear_bit}

-- `PAGESIZE`
abbrev pub page_size : ℕ
page_size = 4096

-- `RAM_MAXPAGE`
abbrev pub ram_max_page : ℕ
ram_max_page = 0x100000

-- `(char *) -1`
abbrev pub minus_one : ℕ
minus_one = 0xFFFFFFFF

-- `u8 mem_bitmap[RAM_MAXPAGE / 8]`
abbrev pub Bitmap : Type 0
Bitmap = ℕ → ℕ

unfoldable pub set_page_frame_used : ℕ → Bitmap → Bitmap
set_page_frame_used page m = update m (page / 8) (set_bit (m (page / 8)) (page % 8))

unfoldable pub release_page_frame : ℕ → Bitmap → Bitmap
release_page_frame p_addr m =
    update m (p_addr / page_size / 8)
      (clear_bit (m (p_addr / page_size / 8)) (p_addr / page_size % 8))

-- The inner loop, `for (bit = 0; bit < 8; bit++)`, with the rounds left.
find_bit : ℕ → ℕ → ℕ → Option ℕ
find_bit zero bit b = none
find_bit (suc n) bit b =
    let rest = find_bit n (bit + 1) b in if bit_at b bit then rest else some bit

-- The outer loop, `for (byte = 0; byte < RAM_MAXPAGE / 8; byte++)`: the page found.
find_page : ℕ → ℕ → Bitmap → Option ℕ
find_page zero byte m = none
find_page (suc n) byte m =
    let rest = find_page n (byte + 1) m in
    if m byte != 0xFF
    then elim (find_bit 8 0 (m byte)) [ some bit ↦ some (8 * byte + bit) | none ↦ rest ]
    else rest

-- The physical address of the frame, and the bitmap in which it is marked.
unfoldable pub get_page_frame : Bitmap → ℕ × Bitmap
unfolding find_bit find_page
get_page_frame m = elim (find_page (ram_max_page / 8) 0 m) [
  | some page ↦ (page * page_size, set_page_frame_used page m)
  | none ↦ (minus_one, m)
]

-- Whether the bitmap marks a page as used.
abbrev pub is_used : Bitmap → ℕ → Bool
is_used m page = bit_at (m (page / 8)) (page % 8)

-- The bitmap holds bytes.
abbrev pub HoldsBytes : Bitmap → Type 0
HoldsBytes m = (i : ℕ) → m i < 2 ^ 8
