-- ===== src/Mm/Kmalloc/Chunks.antt =====
-- The heap as a list of chunks, and what `kmalloc` and `kfree` promise of that list.
use creeks_old.Base.{
  ℕ, ◌+◌, ◌-◌, ◌*◌, ◌/◌, ◌≤◌, ◌<◌, ◌≡◌, refl, arith, Bool, true, false, List, [], ◌∷◌, ◌++◌, ◌∙◌,
  inl, inr, ap, append-nil, Bool-cases, le→ltb, ltb, ◌||◌, if◌then◌else◌,
}
use creeks_old.Mm.Frames.{page_size}
use creeks_old.Mm.State.{Mm}
use creeks_old.Mm.Kmalloc.{minsize}

-- Size and state of a chunk.
abbrev pub Chunk : Type 0
Chunk = ℕ × Bool

abbrev pub total : List Chunk → ℕ
total [] = 0
total ((s, u) ∷ cs) = s + total cs

-- From address `a` up to `e` the headers describe exactly the chunks `cs`, one after the other, none
-- below the minimal size.
abbrev pub Tiles : Mm → ℕ → List Chunk → ℕ → Type 0
Tiles m a [] e = a ≡ e
Tiles m a ((s, u) ∷ cs) e = (m.size a ≡ s) × (m.used a ≡ u) × (minsize ≤ s) × Tiles m (a + s) cs e

-- The allocated front of a free chunk of size `s`, and what is left of it.
abbrev pub place : ℕ → ℕ → List Chunk
place r s = if ltb (s - r) minsize then (s, true) ∷ [] else (r, true) ∷ (s - r, false) ∷ []

-- First fit for `r` bytes: the chunks afterwards. At the end of the list the heap is extended by whole
-- pages.
abbrev pub first_fit : ℕ → List Chunk → List Chunk
first_fit r [] = place r (page_size * (r / page_size + 1))
first_fit r ((s, u) ∷ cs) = if u || ltb s r then (s, u) ∷ first_fit r cs else place r s ++ cs

-- Where the chunk that is allocated starts, from address `a` on.
abbrev pub fit_address : ℕ → ℕ → List Chunk → ℕ
fit_address r a [] = a
fit_address r a ((s, u) ∷ cs) = if u || ltb s r then fit_address r (a + s) cs else a

-- Whether some chunk fits.
abbrev pub fits : ℕ → List Chunk → Bool
fits r [] = false
fits r ((s, u) ∷ cs) = if u || ltb s r then fits r cs else true

-- The end of a tiling lies behind its start by the sizes of its chunks.
pub Tiles-total : (m : Mm) (a : ℕ) (cs : List Chunk) (e : ℕ) → Tiles m a cs e → a + total cs ≡ e
Tiles-total m a [] e t = omega (arith, t)
Tiles-total m a ((s, u) ∷ cs) e t = omega (arith, Tiles-total m (a + s) cs e t.3)

-- Headers at other addresses may change.
pub Tiles-frame :
    (m m' : Mm) (a : ℕ) (cs : List Chunk) (e : ℕ)
    → ((x : ℕ) → a ≤ x → x < e → (m'.size x ≡ m.size x) × (m'.used x ≡ m.used x))
    → Tiles m a cs e
    → Tiles m' a cs e
Tiles-frame m m' a [] e same t = t
Tiles-frame m m' a ((s, u) ∷ cs) e same t =
    let end = Tiles-total m a ((s, u) ∷ cs) e t in
    let here = same a (omega arith) (omega (arith, t.2)) in
    (
      here.0 ∙ t.0,
      here.1 ∙ t.1,
      t.2,
      Tiles-frame m m' (a + s) cs e (λ x lo hi. same x (omega arith) hi) t.3,
    )

pub fit_address-ge : (r a : ℕ) (cs : List Chunk) → a ≤ fit_address r a cs
fit_address-ge r a [] = omega arith
fit_address-ge r a ((s, u) ∷ cs) = elim (Bool-cases (u || ltb s r)) [
  | inl skip ↦ rw skip (omega (arith, fit_address-ge r (a + s) cs))
  | inr take ↦ rw take (omega arith)
]

-- When no chunk fits, a free one at the end that is large enough is taken, as if it had been there
-- from the start.
pub first_fit-append :
    (r g a : ℕ) (cs : List Chunk)
    → fits r cs ≡ false
    → g ≡ page_size * (r / page_size + 1)
    → (first_fit r (cs ++ (g, false) ∷ []) ≡ first_fit r cs)
      × (fits r (cs ++ (g, false) ∷ []) ≡ true)
      × (fit_address r a (cs ++ (g, false) ∷ []) ≡ fit_address r a cs)
first_fit-append r g a [] nf e =
    let room : ltb g r ≡ false = le→ltb g r (omega arith) in
    rw room (append-nil (place r g) ∙ ap (place r) e, refl, refl)
first_fit-append r g a ((s, u) ∷ cs) nf e = elim (Bool-cases (u || ltb s r)) [
  | inl skip ↦
      let ih = first_fit-append r g (a + s) cs (rw skip at nf) e in
      rw skip (ap (λ t. (s, u) ∷ t) ih.0, ih.1, ih.2)
  | inr take ↦ cc (rw take at nf)
]

pub Tiles-append :
    (m : Mm) (a b c : ℕ) (cs ds : List Chunk)
    → Tiles m a cs b
    → Tiles m b ds c
    → Tiles m a (cs ++ ds) c
Tiles-append m a b c [] ds t w = rw t w
Tiles-append m a b c ((s, u) ∷ cs) ds t w = (t.0, t.1, t.2, Tiles-append m (a + s) b c cs ds t.3 w)
