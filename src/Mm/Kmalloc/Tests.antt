-- ===== src/Mm/Kmalloc/Tests.antt =====
-- Runs of the heap, and its theorems at a heap of three chunks.
use creeks_old.Base.{
  ◌+◌, ◌-◌, ◌%◌, ◌^◌, ◌≡◌, refl, true, false, [], ◌∷◌, inl, arith, ◌==◌, if◌then◌else◌,
}
use creeks_old.Mm.State.{Mm, ok}
use creeks_old.Mm.Kmalloc.{kmalloc, kfree, real_size, kern_heap_base, header}
use creeks_old.Mm.Kmalloc.Chunks.{Chunk, first_fit, fit_address}
use creeks_old.Mm.Kmalloc.Grow.{KernelTables}
use creeks_old.Mm.Kmalloc.Alloc.{IsHeap, kmalloc-first_fit}
use creeks_old.Mm.Kmalloc.Find.{HasRoom}
use creeks_old.Mm.Kmalloc.Free.{free_at, kfree-free_at}
use mathlib.Core.List.{List}

-- 32 bytes used, 64 bytes used, the rest of the page free.
abbrev chunks : List Chunk
chunks = (32, true) ∷ (64, true) ∷ (4000, false) ∷ []

abbrev heap : Mm
heap = record {
  bitmap = λ i. 0;
  mirror = λ a. 0x7003;
  kern_heap = kern_heap_base + 4096;
  size = λ a.
      if a == kern_heap_base
      then 32
      else if a == kern_heap_base + 32
      then 64
      else if a == kern_heap_base + 96
      then 4000
      else 0;
  used = λ a. if a == kern_heap_base then true else a == kern_heap_base + 32;
  kmalloc_used = 96;
}

tables : KernelTables heap
tables = record { present = λ v h. refl }

heap-IsHeap : IsHeap chunks heap
heap-IsHeap = record {
  tiles = (refl, refl, omega arith, (refl, refl, omega arith, (refl, refl, omega arith, refl)));
  limit = omega arith;
  tables = tables;
}

room : HasRoom (real_size 100) chunks heap
unfolding real_size
room = inl refl

kmalloc-first_fit_example :
    (m' : Mm) × (kmalloc 9 100 heap
      ≡ ok (fit_address (real_size 100) kern_heap_base chunks + header, m'))
    × IsHeap (first_fit (real_size 100) chunks) m'
    × (m'.kmalloc_used ≡ (96 + real_size 100) % 2 ^ 32)
kmalloc-first_fit_example =
    kmalloc-first_fit ((64, true) ∷ (4000, false) ∷ []) 32 true 100 9 heap heap-IsHeap room
      (omega arith)

split_result : first_fit 104 chunks ≡ (32, true) ∷ (64, true) ∷ (104, true) ∷ (3896, false) ∷ []
split_result = refl

kfree-free_at_example :
    (m' : Mm) × (kfree 9 (kern_heap_base + 32 + header) heap ≡ ok m')
    × IsHeap (free_at (kern_heap_base + 32) kern_heap_base chunks) m'
    × (m'.kern_heap ≡ kern_heap_base + 4096)
    × (m'.kmalloc_used ≡ (96 + 2 ^ 32 - 64) % 2 ^ 32)
kfree-free_at_example =
    kfree-free_at chunks (kern_heap_base + 32) 9 heap heap-IsHeap refl (omega arith)

merged_result :
    free_at (kern_heap_base + 32) kern_heap_base chunks ≡ (32, true) ∷ (4064, false) ∷ []
merged_result = refl
