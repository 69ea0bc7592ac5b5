-- ===== src/Mm/Kmalloc/Alloc.antt =====
-- `kmalloc` is first fit over the chunks of the heap.
use creeks_old.Base.{
  ℕ, suc, ◌+◌, ◌-◌, ◌%◌, ◌^◌, ◌≤◌, ◌<◌, ◌≡◌, refl, arith, Bool, true, false, inl, inr, List, [],
  ◌∷◌, ◌++◌, ltb, ◌||◌, subst, ◌∙◌, ltb→le, Bool-cases, length,
}
use creeks_old.Mm.State.{Mm, ok}
use creeks_old.Mm.Kmalloc.{
  split_chunk, kmalloc, real_size, kern_heap_base, kern_heap_lim, minsize, header,
}
use creeks_old.Mm.Kmalloc.Chunks.{
  Chunk, Tiles, Tiles-total, Tiles-frame, place, first_fit, fit_address, fit_address-ge, fits,
}
use creeks_old.Mm.Kmalloc.Grow.{KernelTables}
use creeks_old.Mm.Kmalloc.Find.{HasRoom, find_chunk_lem}

-- Splitting a chunk changes no header below it, and none between the two parts and behind them.
split_below :
    (r c x : ℕ) (m : Mm)
    → x < c
    → ((split_chunk r c m).size x ≡ m.size x) × ((split_chunk r c m).used x ≡ m.used x)
unfolding split_chunk
split_below r c x m h = ground arith

split_above :
    (r c s x : ℕ) (m : Mm)
    → m.size c ≡ s
    → r ≤ s
    → 0 < r
    → c + s ≤ x
    → ((split_chunk r c m).size x ≡ m.size x) × ((split_chunk r c m).used x ≡ m.used x)
unfolding split_chunk
split_above r c s x m e le pos h = ground arith

-- The two outcomes at the chunk itself.
module _ (r c s : ℕ) (m : Mm) (e : m.size c ≡ s) where
  split_whole :
      ltb (s - r) minsize ≡ true
      → ((split_chunk r c m).size c ≡ s) × ((split_chunk r c m).used c ≡ true)
  unfolding split_chunk
  split_whole h = ground (arith, h)

  split_parts :
      ltb (s - r) minsize ≡ false
      → s < 2 ^ 31
      → 0 < r
      → ((split_chunk r c m).size c ≡ r)
        × ((split_chunk r c m).used c ≡ true)
        × ((split_chunk r c m).size (c + r) ≡ s - r)
        × ((split_chunk r c m).used (c + r) ≡ false)
  unfolding split_chunk
  split_parts h lim pos = ground (arith, h)

split_here :
    (r c s e : ℕ) (cs : List Chunk) (m : Mm)
    → Tiles m c ((s, false) ∷ cs) e
    → minsize ≤ r
    → r ≤ s
    → e < 2 ^ 31
    → Tiles (split_chunk r c m) c (place r s ++ cs) e
split_here r c s e cs m t big fit lim =
    let end = Tiles-total m c ((s, false) ∷ cs) e t in
    let rest =
      Tiles-frame m (split_chunk r c m) (c + s) cs e
        (λ x lo hi. split_above r c s x m t.0 fit (omega arith) lo) t.3 in
    elim (Bool-cases (ltb (s - r) minsize)) [
      | inl whole ↦ let h = split_whole r c s m t.0 whole in rw whole (h.0, h.1, t.2, rest)
      | inr split ↦
          let h = split_parts r c s m t.0 split (omega arith) (omega arith) in
          let back : c + r + (s - r) ≡ c + s = omega arith in
          rw split (h.0, h.1, big, (h.2, h.3, ltb→le _ _ split, rw back rest))
    ]

split_chunk-Tiles :
    (r a : ℕ) (cs : List Chunk) (e : ℕ) (m : Mm)
    → Tiles m a cs e
    → fits r cs ≡ true
    → minsize ≤ r
    → e < 2 ^ 31
    → Tiles (split_chunk r (fit_address r a cs) m) a (first_fit r cs) e
split_chunk-Tiles r a [] e m t fit big lim = cc
split_chunk-Tiles r a ((s, u) ∷ cs) e m t fit big lim = elim (Bool-cases (u || ltb s r)) [
  | inl skip ↦ rw skip (
      let below =
        split_below r (fit_address r (a + s) cs) a m
          (omega (arith, fit_address-ge r (a + s) cs, t.2)) in
      (
        below.0 ∙ t.0,
        below.1 ∙ t.1,
        t.2,
        split_chunk-Tiles r (a + s) cs e m t.3 (rw skip at fit) big lim,
      ))
  | inr take ↦ rw take (
      let free : u ≡ false = ground arith in
      split_here r a s e cs m (rw free at t) big (ground arith) lim)
]

split_chunk-same :
    (r c : ℕ) (m : Mm)
    → ((split_chunk r c m).kern_heap ≡ m.kern_heap) × ((split_chunk r c m).mirror ≡ m.mirror)
unfolding split_chunk
split_chunk-same r c m = ground arith

-- What `kmalloc` needs: headers that describe the chunks of a heap below its limit, with the kernel's
-- page tables present.
pub record IsHeap (cs : List Chunk) (m : Mm) : Type 0 where
  pub tiles : Tiles m kern_heap_base cs m.kern_heap
  pub limit : m.kern_heap ≤ kern_heap_lim
  pub tables : KernelTables m

real_size_big : (size : ℕ) → minsize ≤ real_size size
unfolding real_size
real_size_big size = ground arith

finish :
    (r c : ℕ) (chunks out : List Chunk) (m : Mm) (k : ℕ)
    → Tiles m kern_heap_base chunks m.kern_heap
    → fits r chunks ≡ true
    → minsize ≤ r
    → m.kern_heap ≤ kern_heap_lim
    → KernelTables m
    → fit_address r kern_heap_base chunks ≡ c
    → first_fit r chunks ≡ out
    → IsHeap out (record (split_chunk r c m) { kmalloc_used = k })
finish r c chunks out m k tl fit big lim t at_c gives =
    let same = split_chunk-same r c m in
    let split =
      split_chunk-Tiles r kern_heap_base chunks m.kern_heap m tl fit big (omega (arith, lim)) in
    let here : Tiles (split_chunk r c m) kern_heap_base out m.kern_heap =
      subst (λ x. Tiles (split_chunk r x m) kern_heap_base out m.kern_heap) at_c
        (subst
          (λ l.
            Tiles (split_chunk r (fit_address r kern_heap_base chunks) m) kern_heap_base l
              m.kern_heap)
          gives split) in
    record {
      tiles = rw same.0 (
          Tiles-frame (split_chunk r c m) (record (split_chunk r c m) { kmalloc_used = k })
            kern_heap_base out m.kern_heap (λ x lo hi. (refl, refl)) here);
      limit = rw same.0 lim;
      tables = record { present = rw same.1 (t.present) };
    }

-- On a heap of the chunks `cs`, at least one, where some chunk fits the request with its header or
-- there are free frames and room below the limit for the pages to be added, and with fuel for two
-- rounds more than there are chunks behind the first one, `kmalloc`
-- returns the data of the first chunk that fits, or of the one added at the end, and leaves a heap of
-- the chunks that first fit gives: the one found is used, and split if the rest is large enough; all
-- others are as before.
pub kmalloc-first_fit :
    (cs : List Chunk) (s : ℕ) (u : Bool) (size fuel : ℕ) (m : Mm)
    → IsHeap ((s, u) ∷ cs) m
    → HasRoom (real_size size) ((s, u) ∷ cs) m
    → suc (length cs) < fuel
    → (m' : Mm) × (kmalloc fuel size m
        ≡ ok (fit_address (real_size size) kern_heap_base ((s, u) ∷ cs) + header, m'))
      × IsHeap (first_fit (real_size size) ((s, u) ∷ cs)) m'
      × (m'.kmalloc_used ≡ (m.kmalloc_used + real_size size) % 2 ^ 32)
unfolding kmalloc
kmalloc-first_fit cs s u size fuel m h room enough =
    let r = real_size size in
    let (m1, e, f) =
      find_chunk_lem r m h.tables h.limit cs kern_heap_base s u fuel h.tiles room enough in
    (
      record (split_chunk r (fit_address r kern_heap_base ((s, u) ∷ cs)) m1) {
        kmalloc_used = (m1.kmalloc_used + r) % 2 ^ 32;
      },
      rw e refl,
      finish r _ f.chunks _ m1 _ f.tiles f.fit (real_size_big size) f.limit f.tables f.same_address
          f.same_fit,
      ground (arith, f.kmalloc_used),
    )
