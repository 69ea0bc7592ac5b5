-- ===== src/Mm/Areas/Tests.antt =====
-- Runs on the list of free pages, and its theorem at a concrete list.
use creeks_old.Base.{ℕ, ◌≡◌, refl, ◌||◌, some, List, [], ◌∷◌, arith}
use creeks_old.Mm.Areas.{VmArea, keeps, releases, take_page, put_page, put_behind, join}
use creeks_old.Mm.Areas.Ordered.{is_free, in_page, list_of, put_page-Gives}

abbrev area : ℕ → ℕ → VmArea
area s e = record { address = s; vm_start = s; vm_end = e }

-- One page, at 0x802000, is in use between two areas.
abbrev around : List VmArea
around = area 0x800000 0x802000 ∷ area 0x803000 0x10000000 ∷ []

first_page :
    take_page around
    ≡ some (
      0x800000,
      keeps
          (record (area 0x800000 0x802000) { vm_start = 0x801000 } ∷ area 0x803000 0x10000000 ∷ []),
    )
unfolding take_page
first_page = refl

-- Given back, it joins the two.
joined : put_page 0x802000 around ≡ some (releases 0x803000 (area 0x800000 0x10000000 ∷ []))
unfolding put_page put_behind join
joined = refl

put_page-Gives_example :
    is_free 0x802008 (area 0x800000 0x10000000 ∷ [])
    ≡ (in_page 0x802008 0x802000 || is_free 0x802008 around)
unfolding list_of
put_page-Gives_example =
    put_page-Gives 0x802008 0 0x802000 around (omega arith, (omega arith, tt))
      (releases 0x803000 (area 0x800000 0x10000000 ∷ [])) joined
