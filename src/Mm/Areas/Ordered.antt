-- ===== src/Mm/Areas/Ordered.antt =====
-- Which addresses are free when release_page_from_heap of kern/mm.c has given a page back.
use creeks_old.Base.{
  ℕ, ◌+◌, ◌≤◌, ◌≡◌, ◌∙◌, refl, sym, ap, inl, inr, Bool, false, Bool-cases, Option, none, some, List,
  [], ◌∷◌, ◌++◌, All, leb, ltb, ◌==◌, ◌&&◌, ◌||◌, arith,
}
use mathlib.Core.Option.{some-injective}
use creeks_old.Mm.Frames.{page_size}
use creeks_old.Mm.Areas.{
  VmArea, Change, keeps, releases, allocates, followed_by, behind, join, put_behind, put_page,
}
use creeks_old.Base.Options.{◌>>=◌}

abbrev pub in_area : ℕ → VmArea → Bool
in_area q area = leb area.vm_start q && ltb q area.vm_end

-- Whether an address is in one of the areas.
unfoldable pub is_free : ℕ → List VmArea → Bool
is_free q [] = false
is_free q (area ∷ areas) = in_area q area || is_free q areas

abbrev pub IsArea : VmArea → Type 0
IsArea area = area.vm_start ≤ area.vm_end

-- The list that a change leads to, with a new structure at `a`.
unfoldable pub list_of : ℕ → Change → List VmArea
list_of a (keeps areas) = areas
list_of a (releases b areas) = areas
list_of a (allocates areas) = areas a

-- The page at `v`.
abbrev pub in_page : ℕ → ℕ → Bool
in_page q v = leb v q && ltb q (v + page_size)

is_free-append :
    (q : ℕ) (xs ys : List VmArea) → is_free q (xs ++ ys) ≡ (is_free q xs || is_free q ys)
unfolding is_free
is_free-append q [] ys = refl
is_free-append q (x ∷ xs) ys = ground (arith, is_free-append q xs ys)

is_free-followed_by :
    (q a : ℕ) (c : Change) (areas : List VmArea)
    → is_free q (list_of a (followed_by c areas)) ≡ (is_free q (list_of a c) || is_free q areas)
unfolding list_of
is_free-followed_by q a (keeps l) areas = is_free-append q l areas
is_free-followed_by q a (releases b l) areas = is_free-append q l areas
is_free-followed_by q a (allocates l) areas = is_free-append q (l a) areas

is_free-behind :
    (q a : ℕ) (area : VmArea) (c : Change)
    → is_free q (list_of a (behind area c)) ≡ (in_area q area || is_free q (list_of a c))
unfolding list_of is_free
is_free-behind q a area (keeps l) = refl
is_free-behind q a area (releases b l) = refl
is_free-behind q a area (allocates l) = refl

-- What is free after a change that gives the page at `v` back.
abbrev Gives : ℕ → ℕ → ℕ → List VmArea → Option Change → Type 0
Gives q a v areas o =
    (c : Change) → o ≡ some c → is_free q (list_of a c) ≡ (in_page q v || is_free q areas)

same_change_lem :
    (q a v : ℕ) (areas : List VmArea) (o : Option Change) (x : Change)
    → o ≡ some x
    → is_free q (list_of a x) ≡ (in_page q v || is_free q areas)
    → Gives q a v areas o
same_change_lem q a v areas o x e f c e' =
    ap (λ y. is_free q (list_of a y)) (some-injective c x (sym e' ∙ e)) ∙ f

join-Gives :
    (q a v : ℕ) (prev next : VmArea)
    → IsArea prev
    → IsArea next
    → Gives q a v (prev ∷ next ∷ []) (join v prev next)
unfolding join is_free list_of
join-Gives q a v prev next p n = elim (Bool-cases (prev.vm_end == v)) [
  | inl at ↦ elim (Bool-cases (prev.vm_end + page_size == next.vm_start)) [
    | inl both ↦
        rw (at, both) (same_change_lem q a v (prev ∷ next ∷ []) _ _ refl (ground (arith, p, n)))
    | inr one ↦
        rw (at, one) (same_change_lem q a v (prev ∷ next ∷ []) _ _ refl (ground (arith, p, n)))
  ]
  | inr apart ↦ elim (Bool-cases (next.vm_start == v + page_size)) [
    | inl front ↦
        rw (apart, front) (same_change_lem q a v (prev ∷ next ∷ []) _ _ refl (ground (arith, p, n)))
    | inr free ↦ elim (Bool-cases (ltb (v + page_size) next.vm_start)) [
      | inl new ↦
          rw (apart, free, new)
            (same_change_lem q a v (prev ∷ next ∷ []) _ _ refl (ground (arith, p, n)))
      | inr corrupt ↦ λ c e. absurd (ground (arith, e, apart, free, corrupt))
    ]
  ]
]

bound_step :
    (o : Option Change) (f : Change → Change) (c : Change)
    → (o >>= (λ x. some (f x))) ≡ some c
    → (x : Change) × ((o ≡ some x) × (f x ≡ c))
bound_step none f c e = absurd (ground (arith, e))
bound_step (some x) f c e = (x, (refl, some-injective (f x) c e))

put_behind-Gives :
    (q a v : ℕ) (prev : VmArea) (areas : List VmArea)
    → IsArea prev
    → All IsArea areas
    → Gives q a v (prev ∷ areas) (put_behind v prev areas)
unfolding put_behind is_free
put_behind-Gives q a v prev [] p ps = λ c e. absurd (ground (arith, e))
put_behind-Gives q a v prev (next ∷ areas) p (n, ps) = elim (Bool-cases (ltb v next.vm_start)) [
  | inl here ↦ rw here (λ c e.
      let (x, (run, end)) = bound_step (join v prev next) (λ x. followed_by x areas) c e in
      let got = join-Gives q a v prev next p n x run in
      ap (λ y. is_free q (list_of a y)) (sym end)
      ∙ (is_free-followed_by q a x areas ∙ ground (arith, got)))
  | inr later ↦ rw later (λ c e.
      let (x, (run, end)) = bound_step (put_behind v next areas) (behind prev) c e in
      let got = put_behind-Gives q a v next areas n ps x run in
      ap (λ y. is_free q (list_of a y)) (sym end)
      ∙ (is_free-behind q a prev x ∙ ground (arith, got)))
]

-- Giving a page back to a list of areas, where it is put between two of them, makes exactly the
-- addresses of the page free besides those that were, whether the areas beside it are extended, are
-- joined, or a new one is put between them.
pub put_page-Gives :
    (q a v : ℕ) (areas : List VmArea)
    → All IsArea areas
    → (c : Change) → put_page v areas ≡ some c
    → is_free q (list_of a c) ≡ (in_page q v || is_free q areas)
unfolding put_page
put_page-Gives q a v [] ok = λ c e. absurd (ground (arith, e))
put_page-Gives q a v (area ∷ areas) (ok, oks) = elim (Bool-cases (ltb v area.vm_start)) [
  | inl front ↦ rw front (λ c e. absurd (ground (arith, e)))
  | inr behind_it ↦ rw behind_it (put_behind-Gives q a v area areas ok oks)
]
