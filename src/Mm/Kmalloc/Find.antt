-- ===== src/Mm/Kmalloc/Find.antt =====
-- The loop of `kmalloc` finds the first chunk that fits, and extends the heap if there is none.
use creeks_old.Base.{
  ℕ, zero, suc, ◌+◌, ◌*◌, ◌/◌, ◌≤◌, ◌<◌, ◌≡◌, ◌⊎◌, refl, arith, Bool, true, false, inl, inr, List,
  [], ◌∷◌, ◌++◌, ◌==◌, ltb, ◌||◌, ap, ◌∙◌, le→ltb, Bool-cases, length, ==_self, ==_of_ne,
}
use creeks_old.Mm.Frames.{page_size}
use creeks_old.Mm.State.{Mm, ok}
use creeks_old.Mm.Kmalloc.{find_chunk, grow_at, kern_heap_lim}
use creeks_old.Mm.Kmalloc.Chunks.{
  Chunk, Tiles, Tiles-total, Tiles-frame, Tiles-append, first_fit, fit_address, fits,
  first_fit-append,
}
use creeks_old.Mm.Kmalloc.Grow.{KernelTables, HasFrames, Extended, ksbrk_lem}

-- For a chunk for `r` bytes there are addresses below the limit, and free frames.
abbrev pub HasPages : ℕ → Mm → Type 0
HasPages r m =
    (m.kern_heap + (r / page_size + 1) * page_size ≤ kern_heap_lim)
    × HasFrames (r / page_size + 1) m.bitmap

-- A chunk for `r` bytes is there, or there is room for one.
abbrev pub HasRoom : ℕ → List Chunk → Mm → Type 0
HasRoom r cs m = (fits r cs ≡ true) ⊎ HasPages r m

-- What the loop leaves: chunks, some fitting one among them, for which first fit gives the same as for
-- those that it started from; no header below the old end is changed.
pub record Found (r a : ℕ) (cs : List Chunk) (m m' : Mm) : Type 0 where
  pub chunks : List Chunk
  pub tiles : Tiles m' a chunks m'.kern_heap
  pub fit : fits r chunks ≡ true
  pub same_fit : first_fit r chunks ≡ first_fit r cs
  pub same_address : fit_address r a chunks ≡ fit_address r a cs
  pub kept : (x : ℕ) → x < m.kern_heap → (m'.size x ≡ m.size x) × (m'.used x ≡ m.used x)
  pub kmalloc_used : m'.kmalloc_used ≡ m.kmalloc_used
  pub tables : KernelTables m'
  pub limit : m'.kern_heap ≤ kern_heap_lim

module _ (r a s : ℕ) (u : Bool) (m : Mm) (size : m.size a ≡ s) (used : m.used a ≡ u) where
  take_step : (fuel : ℕ) → (u || ltb s r) ≡ false → find_chunk (suc fuel) r a m ≡ ok (a, m)
  unfolding find_chunk
  take_step fuel take = rw (size, used, take) refl

  skip_step :
      (fuel : ℕ) (m1 : Mm)
      → (u || ltb s r) ≡ true
      → 0 < s
      → grow_at r (a + s) m ≡ ok m1
      → find_chunk (suc fuel) r a m ≡ find_chunk fuel r (a + s) m1
  unfolding find_chunk
  skip_step fuel m1 skip pos e =
      let nz : (s == 0) ≡ false = ground arith in rw (size, used, skip, nz, e) refl

module _ (r : ℕ) (m : Mm) (t : KernelTables m) (lim : m.kern_heap ≤ kern_heap_lim) where
  abbrev Finds : ℕ → ℕ → List Chunk → Type 0
  Finds fuel a cs =
      (m' : Mm) × (find_chunk fuel r a m ≡ ok (fit_address r a cs, m')) × Found r a cs m m'

  first_chunk_lem :
      (a : ℕ) (cs : List Chunk) → Tiles m a cs m.kern_heap → fits r cs ≡ true → Found r a cs m m
  first_chunk_lem a cs tl fit = record {
    chunks = cs;
    tiles = tl;
    fit = fit;
    same_fit = refl;
    same_address = refl;
    kept = λ x h. (refl, refl);
    kmalloc_used = refl;
    tables = t;
    limit = lim;
  }

  -- The chunks once a free one of whole pages has been added at the end.
  grown_chunk_lem :
      (a : ℕ) (cs : List Chunk) (m1 : Mm)
      → Tiles m a cs m.kern_heap
      → fits r cs ≡ false
      → m.kern_heap + (r / page_size + 1) * page_size ≤ kern_heap_lim
      → Extended (r / page_size + 1) m m1
      → Found r a cs m m1
  grown_chunk_lem a cs m1 tl nf room x =
      let more = first_fit-append r ((r / page_size + 1) * page_size) a cs nf (omega arith) in
      let kept : (y : ℕ) → y < m.kern_heap → (m1.size y ≡ m.size y) × (m1.used y ≡ m.used y) =
        λ y h. ground (arith, x.size y, x.used y) in
      record {
        chunks = cs ++ ((r / page_size + 1) * page_size, false) ∷ [];
        tiles =
            Tiles-append m1 a m.kern_heap m1.kern_heap cs _
              (Tiles-frame m m1 a cs m.kern_heap (λ y lo hi. kept y hi) tl)
              (
                ground (arith, x.size m.kern_heap),
                ground (arith, x.used m.kern_heap),
                omega arith,
                omega (arith, x.heap),
              );
        fit = more.1;
        same_fit = more.0;
        same_address = more.2;
        kept = kept;
        kmalloc_used = x.kmalloc_used;
        tables = x.tables;
        limit = omega (arith, x.heap);
      }

  later :
      (s : ℕ) (u : Bool) (cs : List Chunk)
      → (u || ltb s r) ≡ true
      → HasRoom r ((s, u) ∷ cs) m
      → HasRoom r cs m
  later s u cs skip (inl fit) = inl (rw skip at fit)
  later s u cs skip (inr room) = inr room

  needs_pages :
      (s : ℕ) (u : Bool) → (u || ltb s r) ≡ true → HasRoom r ((s, u) ∷ []) m → HasPages r m
  needs_pages s u skip (inl fit) = let no = rw skip at fit in ground (arith, no)
  needs_pages s u skip (inr pages) = pages

  -- The end of the heap is reached.
  at_end :
      (a s : ℕ) (u : Bool) (fuel : ℕ)
      → Tiles m a ((s, u) ∷ []) m.kern_heap
      → (u || ltb s r) ≡ true
      → HasPages r m
      → Finds (suc (suc fuel)) a ((s, u) ∷ [])
  at_end a s u fuel tl skip (room, frames) =
      let (m1, e, x) = ksbrk_lem (r / page_size + 1) m t frames room in
      let end : a + s ≡ m.kern_heap = tl.3 in
      let grown : grow_at r (a + s) m ≡ ok m1 = unfold grow_at in rw (end, ==_self, e) refl in
      let size : m1.size (a + s) ≡ (r / page_size + 1) * page_size =
        ground (arith, x.size (a + s)) in
      let free : m1.used (a + s) ≡ false = ground (arith, x.used (a + s)) in
      (
        m1,
        skip_step r a s u m tl.0 tl.1 (suc fuel) m1 skip (omega (arith, tl.2)) grown
            ∙ take_step r (a + s) _ false m1 size free fuel (le→ltb _ r (omega arith))
            ∙ rw skip refl,
        grown_chunk_lem a ((s, u) ∷ []) m1 tl (rw skip refl) room x,
      )

  -- A chunk that is skipped stands in front of what is found behind it.
  later_chunk_lem :
      (a s : ℕ) (u : Bool) (cs : List Chunk) (m' : Mm)
      → Tiles m a ((s, u) ∷ cs) m.kern_heap
      → (u || ltb s r) ≡ true
      → Found r (a + s) cs m m'
      → Found r a ((s, u) ∷ cs) m m'
  later_chunk_lem a s u cs m' tl skip f =
      let end = Tiles-total m a ((s, u) ∷ cs) m.kern_heap tl in
      let here = f.kept a (omega (arith, tl.2)) in
      record {
        chunks = (s, u) ∷ f.chunks;
        tiles = (here.0 ∙ tl.0, here.1 ∙ tl.1, tl.2, f.tiles);
        fit = rw skip (f.fit);
        same_fit = rw skip (ap (λ l. (s, u) ∷ l) f.same_fit);
        same_address = rw skip (f.same_address);
        kept = f.kept;
        kmalloc_used = f.kmalloc_used;
        tables = f.tables;
        limit = f.limit;
      }

  pub find_chunk_lem :
      (cs : List Chunk) (a s : ℕ) (u : Bool) (fuel : ℕ)
      → Tiles m a ((s, u) ∷ cs) m.kern_heap
      → HasRoom r ((s, u) ∷ cs) m
      → suc (length cs) < fuel
      → Finds fuel a ((s, u) ∷ cs)
  find_chunk_lem cs a s u zero tl room h = absurd (omega arith)
  find_chunk_lem [] a s u (suc zero) tl room h = absurd (omega arith)
  find_chunk_lem [] a s u (suc (suc fuel)) tl room h = elim (Bool-cases (u || ltb s r)) [
    | inl skip ↦ at_end a s u fuel tl skip (needs_pages s u skip room)
    | inr take ↦ (
      m,
      take_step r a s u m tl.0 tl.1 (suc fuel) take ∙ rw take refl,
      first_chunk_lem a _ tl (rw take refl),
    )
  ]
  find_chunk_lem ((s2, u2) ∷ cs) a s u (suc fuel) tl room h = elim (Bool-cases (u || ltb s r)) [
    | inl skip ↦
        let end = Tiles-total m (a + s) ((s2, u2) ∷ cs) m.kern_heap tl.3 in
        let inside : grow_at r (a + s) m ≡ ok m =
          unfold grow_at in
          rw
            (
              ==_of_ne (a + s) m.kern_heap (omega (arith, tl.3.2)),
              le→ltb m.kern_heap (a + s) (omega arith),
            )
            refl in
        let (m', e, f) =
          find_chunk_lem cs (a + s) s2 u2 fuel tl.3 (later s u ((s2, u2) ∷ cs) skip room)
            (omega arith) in
        (
          m',
          skip_step r a s u m tl.0 tl.1 fuel m skip (omega (arith, tl.2)) inside ∙ e ∙ rw skip refl,
          later_chunk_lem a s u ((s2, u2) ∷ cs) m' tl skip f,
        )
    | inr take ↦ (
      m,
      take_step r a s u m tl.0 tl.1 fuel take ∙ rw take refl,
      first_chunk_lem a _ tl (rw take refl),
    )
  ]
