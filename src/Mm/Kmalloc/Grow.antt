-- ===== src/Mm/Kmalloc/Grow.antt =====
-- `ksbrk` extends the heap by pages, while the heap stays below its limit.
use creeks_old.Base.{
  ℕ, zero, suc, ◌+◌, ◌*◌, ◌%◌, ◌^◌, ◌≤◌, ◌≡◌, ◌≢◌, ==_of_ne, refl, arith, Bool, true, false, some,
  ◌==◌, ltb, if◌then◌else◌, update, ap, ◌∙◌, le→ltb,
}
use creeks_old.Mm.Frames.{page_size, minus_one, Bitmap, get_page_frame}
use creeks_old.Mm.Paging.{
  user_offset, pde_address, pte_address, page_entry, is_present, pd0_add_page,
}
use creeks_old.Mm.Paging.Addresses.{pde_address_lem, pte_address_lem}
use creeks_old.Mm.State.{Mm, ok}
use creeks_old.Mm.Kmalloc.{add_page, add_pages, ksbrk, kern_heap_lim, as_size}

-- The tables of the kernel's address space are there.
pub record KernelTables (m : Mm) : Type 0 where
  pub present : (v : ℕ) → v ≤ user_offset → is_present (m.mirror (pde_address v)) ≡ true

-- `get_page_frame` finds `n` free frames, one after the other.
abbrev pub HasFrames : ℕ → Bitmap → Type 0
HasFrames zero m = Unit
HasFrames (suc n) m = ((get_page_frame m).0 ≢ minus_one) × HasFrames n ((get_page_frame m).1)

-- `n` pages more, and nothing else of the heap changed.
pub record Grown (n : ℕ) (m m' : Mm) : Type 0 where
  pub heap : m'.kern_heap ≡ m.kern_heap + n * page_size
  pub size : m'.size ≡ m.size
  pub used : m'.used ≡ m.used
  pub kmalloc_used : m'.kmalloc_used ≡ m.kmalloc_used
  pub tables : KernelTables m'

module _ (m : Mm) (t : KernelTables m) (room : m.kern_heap ≤ user_offset)
    (frame : (get_page_frame m.bitmap).0 ≢ minus_one) where
  abbrev one_page : Mm
  one_page = record m {
    bitmap = (get_page_frame m.bitmap).1;
    mirror = update m.mirror (pte_address m.kern_heap) (page_entry (get_page_frame m.bitmap).0 0);
    kern_heap = m.kern_heap + page_size;
  }

  one_page-tables : KernelTables one_page
  one_page-tables = record {
    present = λ v h. ground (
      arith,
      t.present v h,
      pde_address_lem v (omega arith),
      pte_address_lem m.kern_heap (omega arith),
    );
  }

  add_page_lem : add_page m ≡ ok one_page
  unfolding add_page pd0_add_page
  add_page_lem =
      let mapped : pd0_add_page m.kern_heap (get_page_frame m.bitmap).0 0 m.mirror
          ≡ some (one_page.mirror) =
        rw (le→ltb user_offset m.kern_heap room, t.present m.kern_heap room) refl in
      let backed = ==_of_ne (get_page_frame m.bitmap).0 minus_one frame in
      rw (mapped, backed, add_page) refl

  one_page-Grown : Grown 1 m one_page
  one_page-Grown = record {
    heap = omega arith;
    size = refl;
    used = refl;
    kmalloc_used = refl;
    tables = one_page-tables;
  }

Grown-trans : {n : ℕ} {m m' m'' : Mm} → Grown 1 m m' → Grown n m' m'' → Grown (suc n) m m''
Grown-trans {n} g h = record {
  heap = omega (arith, g.heap, h.heap);
  size = h.size ∙ g.size;
  used = h.used ∙ g.used;
  kmalloc_used = h.kmalloc_used ∙ g.kmalloc_used;
  tables = h.tables;
}

add_pages_lem :
    (n : ℕ) (m : Mm)
    → KernelTables m
    → HasFrames n m.bitmap
    → m.kern_heap + n * page_size ≤ kern_heap_lim
    → (m' : Mm) × (add_pages n m ≡ ok m') × Grown n m m'
unfolding add_pages
add_pages_lem zero m t frames h = (
  m,
  refl,
  record { heap = omega arith; size = refl; used = refl; kmalloc_used = refl; tables = t },
)
add_pages_lem (suc n) m t (frame, frames) h =
    let here : m.kern_heap ≤ user_offset = omega arith in
    let (m', e, g) =
      add_pages_lem n (one_page m t here frame) (one_page-tables m t here frame) frames
        (omega arith) in
    (m', rw (add_page_lem m t here frame) e, Grown-trans (one_page-Grown m t here frame) g)

-- The state with the new chunk's header written.
pub record Extended (n : ℕ) (m m' : Mm) : Type 0 where
  pub heap : m'.kern_heap ≡ m.kern_heap + n * page_size
  pub size : (x : ℕ) → m'.size x ≡ (if x == m.kern_heap then n * page_size else m.size x)
  pub used : (x : ℕ) → m'.used x ≡ (if x == m.kern_heap then false else m.used x)
  pub kmalloc_used : m'.kmalloc_used ≡ m.kmalloc_used
  pub tables : KernelTables m'

-- With the kernel's tables present, `n` free frames and `n` pages of room below the limit, `ksbrk` returns the old end
-- of the heap, where it has made one free chunk of all the pages, and no other header has changed.
pub ksbrk_lem :
    (n : ℕ) (m : Mm)
    → KernelTables m
    → HasFrames n m.bitmap
    → m.kern_heap + n * page_size ≤ kern_heap_lim
    → (m' : Mm) × (ksbrk n m ≡ ok (m.kern_heap, m')) × Extended n m m'
unfolding ksbrk
ksbrk_lem n m t frames h =
    let (m1, e, g) = add_pages_lem n m t frames h in
    let fits : ltb kern_heap_lim ((m.kern_heap + n * page_size) % 2 ^ 32) ≡ false = ground arith in
    (
      record m1 {
        size = update m1.size m.kern_heap (as_size (page_size * n));
        used = update m1.used m.kern_heap false;
      },
      rw (fits, e) refl,
      record {
        heap = g.heap;
        size = λ x. ground (arith, ap (λ (f : ℕ → ℕ). f x) g.size);
        used = λ x. ground (arith, ap (λ (f : ℕ → Bool). f x) g.used);
        kmalloc_used = g.kmalloc_used;
        tables = record { present = g.tables.present };
      },
    )
