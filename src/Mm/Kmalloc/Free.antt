-- ===== src/Mm/Kmalloc/Free.antt =====
-- `kfree` frees a chunk and merges it with the free ones behind it.
use creeks_old.Base.{
  ℕ, zero, suc, ◌+◌, ◌-◌, ◌%◌, ◌^◌, ◌≤◌, ◌<◌, ◌≡◌, ◌≢◌, refl, arith, Bool, true, false, not, inl,
  inr, List, [], ◌∷◌, ◌==◌, ◌!=◌, ltb, ◌&&◌, if◌then◌else◌, subst, update_self, ◌∙◌, eq_of_==,
  Bool-cases, length, update,
}
use creeks_old.Mm.State.{Mm, ok}
use creeks_old.Mm.Kmalloc.{merge_chunks, kfree, kern_heap_base, kern_heap_lim, header, as_size}
use creeks_old.Mm.Kmalloc.Chunks.{Chunk, Tiles, Tiles-total, Tiles-frame}
use creeks_old.Mm.Kmalloc.Alloc.{IsHeap}

-- A free chunk of size `s` in front of `cs`, once it has taken in the free chunks that follow.
abbrev pub absorb : ℕ → List Chunk → List Chunk
absorb s [] = (s, false) ∷ []
absorb s ((s', true) ∷ cs) = (s, false) ∷ (s', true) ∷ cs
absorb s ((s', false) ∷ cs) = absorb (s + s') cs

-- The chunks, of which the first starts at `a`, after the one at `d` is freed.
abbrev pub free_at : ℕ → ℕ → List Chunk → List Chunk
free_at d a [] = []
free_at d a ((s, u) ∷ cs) = if a == d then absorb s cs else (s, u) ∷ free_at d (a + s) cs

-- Whether a chunk starts at `d`.
abbrev pub starts_at : ℕ → ℕ → List Chunk → Bool
starts_at d a [] = false
starts_at d a ((s, u) ∷ cs) = if a == d then true else starts_at d (a + s) cs

-- At most the size of the chunk at `c` is changed.
record SameBut (c : ℕ) (m m' : Mm) : Type 0 where
  size : (x : ℕ) → x ≢ c → m'.size x ≡ m.size x
  used : (x : ℕ) → m'.used x ≡ m.used x
  heap : m'.kern_heap ≡ m.kern_heap
  count : m'.kmalloc_used ≡ m.kmalloc_used
  mirror : m'.mirror ≡ m.mirror

unchanged : (c : ℕ) (m : Mm) → SameBut c m m
unchanged c m = record {
  size = λ x ne. refl;
  used = λ x. refl;
  heap = refl;
  count = refl;
  mirror = refl;
}

module _ (fuel c s : ℕ) (m : Mm) (size : m.size c ≡ s) where
  stop_step :
      ((c + s != 0) && (ltb (c + s) m.kern_heap && not (m.used (c + s)))) ≡ false
      → merge_chunks (suc fuel) c m ≡ ok m
  unfolding merge_chunks
  stop_step h = rw (size, h) refl

  go_step :
      (s2 : ℕ)
      → ((c + s != 0) && (ltb (c + s) m.kern_heap && not (m.used (c + s)))) ≡ true
      → m.size (c + s) ≡ s2
      → merge_chunks (suc fuel) c m
        ≡ merge_chunks fuel c (record m { size = update m.size c (as_size (s + s2)) })
  unfolding merge_chunks
  go_step s2 h e = rw (size, h, e) refl

merge_chunks_lem :
    (cs : List Chunk) (fuel c s : ℕ) (m : Mm)
    → Tiles m c ((s, false) ∷ cs) m.kern_heap
    → m.kern_heap ≤ kern_heap_lim
    → length cs < fuel
    → (m' : Mm) × (merge_chunks fuel c m ≡ ok m')
      × Tiles m' c (absorb s cs) m.kern_heap
      × SameBut c m m'
merge_chunks_lem cs zero c s m tl lim h = absurd (omega arith)
merge_chunks_lem [] (suc fuel) c s m tl lim h =
    let stop : ((c + s != 0) && (ltb (c + s) m.kern_heap && not (m.used (c + s)))) ≡ false =
      ground (arith, tl.3) in
    (m, stop_step fuel c s m tl.0 stop, tl, unchanged c m)
merge_chunks_lem ((s2, true) ∷ cs) (suc fuel) c s m tl lim h =
    let stop : ((c + s != 0) && (ltb (c + s) m.kern_heap && not (m.used (c + s)))) ≡ false =
      ground (arith, tl.3.1) in
    (m, stop_step fuel c s m tl.0 stop, tl, unchanged c m)
merge_chunks_lem ((s2, false) ∷ cs) (suc fuel) c s m tl lim h =
    let end = Tiles-total m c ((s, false) ∷ (s2, false) ∷ cs) m.kern_heap tl in
    let go : ((c + s != 0) && (ltb (c + s) m.kern_heap && not (m.used (c + s)))) ≡ true =
      ground (arith, tl.2, tl.3.1, tl.3.2, end) in
    let m1 : Mm = record m { size = update m.size c (as_size (s + s2)) } in
    let back : c + (s + s2) ≡ c + s + s2 = omega arith in
    let rest : Tiles m1 (c + (s + s2)) cs m.kern_heap = rw back (
      Tiles-frame m m1 (c + s + s2) cs m.kern_heap (λ x lo hi. (ground (arith, tl.2), refl))
        tl.3.3) in
    let sum : m1.size c ≡ s + s2 = ground (arith, end) in
    let (m', e, tiles, same) =
      merge_chunks_lem cs fuel c (s + s2) m1 (sum, tl.1, omega (arith, tl.2), rest) lim
        (omega arith) in
    (
      m',
      go_step fuel c s m tl.0 s2 go tl.3.0 ∙ e,
      tiles,
      record {
        size = λ x ne. ground (arith, same.size x ne);
        used = same.used;
        heap = same.heap;
        count = same.count;
        mirror = same.mirror;
      },
    )

abbrev Freed : (fuel d a : ℕ) → List Chunk → Mm → Type 0
Freed fuel d a out m =
    (m' : Mm) × (merge_chunks fuel d (record m { used = update m.used d false }) ≡ ok m')
    × Tiles m' a out m.kern_heap
    × (a ≤ d)
    × SameBut d (record m { used = update m.used d false }) m'

free-merge_lem :
    (cs : List Chunk) (fuel a s : ℕ) (u : Bool) (m : Mm)
    → Tiles m a ((s, u) ∷ cs) m.kern_heap
    → m.kern_heap ≤ kern_heap_lim
    → length cs < fuel
    → Freed fuel a a (absorb s cs) m
free-merge_lem cs fuel a s u m tl lim h =
    let m1 : Mm = record m { used = update m.used a false } in
    let rest =
      Tiles-frame m m1 (a + s) cs m.kern_heap (λ x lo hi. (refl, ground (arith, tl.2))) tl.3 in
    let (m', q, tiles, same) =
      merge_chunks_lem cs fuel a s m1 (tl.0, update_self m.used a false, tl.2, rest) lim h in
    (m', q, tiles, omega arith, same)

-- The same with chunks in front of the one that is freed.
free_at_lem :
    (cs : List Chunk) (fuel d a : ℕ) (m : Mm)
    → Tiles m a cs m.kern_heap
    → m.kern_heap ≤ kern_heap_lim
    → starts_at d a cs ≡ true
    → length cs < fuel
    → Freed fuel d a (free_at d a cs) m
free_at_lem [] fuel d a m tl lim st h = cc
free_at_lem ((s, u) ∷ cs) fuel d a m tl lim st h = elim (Bool-cases (a == d)) [
  | inl e ↦ rw e (
      subst (λ x. Freed fuel x a (absorb s cs) m) (eq_of_== a d e)
        (free-merge_lem cs fuel a s u m tl lim (omega arith)))
  | inr ne ↦
      let (m', q, tiles, le, same) =
        free_at_lem cs fuel d (a + s) m tl.3 lim (rw ne at st) (omega arith) in
      rw ne (
        m',
        q,
        (
          ground (arith, same.size a, tl.0, tl.2, le),
          ground (arith, same.used a, tl.1, tl.2, le),
          tl.2,
          tiles,
        ),
        omega (arith, le),
        same,
      )
]

-- On a heap of the chunks `cs`, one of which starts at `d`, and with fuel for two rounds more than there are chunks, `kfree`
-- of that chunk's data returns, and leaves a heap in which that chunk is free and has taken in the
-- free chunks that follow it; all others are as before, and the heap's end is.
pub kfree-free_at :
    (cs : List Chunk) (d fuel : ℕ) (m : Mm)
    → IsHeap cs m
    → starts_at d kern_heap_base cs ≡ true
    → suc (length cs) < fuel
    → (m' : Mm) × (kfree fuel (d + header) m ≡ ok m')
      × IsHeap (free_at d kern_heap_base cs) m'
      × (m'.kern_heap ≡ m.kern_heap)
      × (m'.kmalloc_used ≡ (m.kmalloc_used + 2 ^ 32 - m.size d) % 2 ^ 32)
unfolding kfree
kfree-free_at cs d fuel m h st enough =
    let m0 : Mm = record m { kmalloc_used = (m.kmalloc_used + 2 ^ 32 - m.size d) % 2 ^ 32 } in
    let back : d + header - header ≡ d = omega arith in
    let tl = Tiles-frame m m0 kern_heap_base cs m.kern_heap (λ x lo hi. (refl, refl)) h.tiles in
    let (m', e, tiles, le, same) =
      free_at_lem cs fuel d kern_heap_base m0 tl h.limit st (omega arith) in
    (
      m',
      rw back e,
      record {
        tiles = rw same.heap tiles;
        limit = rw same.heap (h.limit);
        tables = record { present = rw same.mirror (h.tables.present) };
      },
      same.heap,
      same.count,
    )
