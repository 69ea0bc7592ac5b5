-- ===== src/Mm/Kmalloc.antt =====
-- The kernel's heap, kern/kmalloc.c: `ksbrk`, `kmalloc` and `kfree`. Pointers are addresses, and
-- their arithmetic is not reduced: a chunk's end stays below the limit of the heap.
pub mod Chunks
pub mod Grow
pub mod Find
pub mod Alloc
pub mod Free
mod Tests
use creeks_old.Base.{
  ℕ, zero, suc, ◌+◌, ◌-◌, ◌*◌, ◌/◌, ◌%◌, ◌^◌, Bool, true, false, Option, none, some, ◌==◌, ◌!=◌,
  ltb, ◌&&◌, ◌||◌, not, if◌then◌else◌, update,
}
use creeks_old.Mm.Frames.{page_size, minus_one, get_page_frame}
use creeks_old.Mm.Paging.{pd0_add_page}
use creeks_old.Mm.State.{Mm, Run, ok, halted, hangs, unbacked, ◌>>=◌}

-- `KMALLOC_MINSIZE`
abbrev pub minsize : ℕ
minsize = 16

-- `sizeof(struct kmalloc_header)`
abbrev pub header : ℕ
header = 4

-- `KERN_HEAP` and `KERN_HEAP_LIM`
abbrev pub kern_heap_base : ℕ
kern_heap_base = 0x10000000

abbrev pub kern_heap_lim : ℕ
kern_heap_lim = 0x40000000

-- One round of the loop of `ksbrk`. The test `p_addr < 0` compares a pointer with 0 and never holds, so
-- without a free frame the code maps the address -1 and goes on, `unbacked`.
add_page : Mm → Run Mm
add_page m = elim (pd0_add_page m.kern_heap (get_page_frame m.bitmap).0 0 m.mirror) [
  | none ↦ halted
  | some t ↦
      if (get_page_frame m.bitmap).0 == minus_one
      then unbacked
      else ok (record m {
        bitmap = (get_page_frame m.bitmap).1;
        mirror = t;
        kern_heap = m.kern_heap + page_size;
      })
]

-- `for (i = 0; i < n; i++)`
add_pages : ℕ → Mm → Run Mm
add_pages zero m = ok m
add_pages (suc n) m = do m' ← add_page m; add_pages n m'

-- The size field is 31 bits wide.
abbrev pub as_size : ℕ → ℕ
as_size n = n % 2 ^ 31

-- `ksbrk`: the address of the new chunk, or -1 when the heap would pass its limit.
pub ksbrk : ℕ → Mm → Run (ℕ × Mm)
unfolding add_pages add_page
ksbrk n m =
    if ltb kern_heap_lim ((m.kern_heap + n * page_size) % 2 ^ 32) then ok (minus_one, m) else do
      m' ← add_pages n m
      ok (
        m.kern_heap,
        record m' {
          size = update m'.size m.kern_heap (as_size (page_size * n));
          used = update m'.used m.kern_heap false;
        },
      )

-- The end of a round of the loop of `kmalloc`, at the next chunk: the heap is extended at its end,
-- and past its end the machine is halted. Whether `ksbrk` returned -1 is not seen:
-- `ksbrk(…) < 0` compares a pointer with 0.
grow_at : (realsize next : ℕ) → Mm → Run Mm
unfolding ksbrk
grow_at realsize next m =
    if next == m.kern_heap
    then (do (_, m') ← ksbrk (realsize / page_size + 1) m; ok m')
    else if ltb m.kern_heap next
    then halted
    else ok m

-- The loop of `kmalloc` from a chunk, on fuel: the chunk that it ends at.
pub find_chunk : ℕ → (realsize chunk : ℕ) → Mm → Run (ℕ × Mm)
unfolding grow_at
find_chunk zero realsize chunk m = hangs
find_chunk (suc fuel) realsize chunk m =
    if m.used chunk || ltb (m.size chunk) realsize
    then (if m.size chunk == 0 then halted else do
      m' ← grow_at realsize (chunk + m.size chunk) m
      find_chunk fuel realsize (chunk + m.size chunk) m')
    else ok (chunk, m)

-- The chunk is split if what is left is large enough for one.
pub split_chunk : (realsize chunk : ℕ) → Mm → Mm
split_chunk realsize chunk m =
    if ltb (m.size chunk - realsize) minsize
    then record m { used = update m.used chunk true }
    else record m {
      size =
          update (update m.size (chunk + realsize) (as_size (m.size chunk - realsize))) chunk
            (as_size realsize);
      used = update (update m.used (chunk + realsize) false) chunk true;
    }

pub real_size : ℕ → ℕ
real_size size =
    if ltb ((header + size) % 2 ^ 32) minsize then minsize else (header + size) % 2 ^ 32

-- The address of the data, behind the header.
unfoldable pub kmalloc : (fuel size : ℕ) → Mm → Run (ℕ × Mm)
unfolding find_chunk split_chunk real_size
kmalloc fuel size m0 = do
  (chunk, m) ← find_chunk fuel (real_size size) kern_heap_base m0
  ok (
    chunk + header,
    record (split_chunk (real_size size) chunk m) {
      kmalloc_used = (m.kmalloc_used + real_size size) % 2 ^ 32;
    },
  )

-- The loop of `kfree`, on fuel: the chunk takes in the unused ones behind it.
merge_chunks : ℕ → ℕ → Mm → Run Mm
merge_chunks zero chunk m = hangs
merge_chunks (suc fuel) chunk m =
    let other = chunk + m.size chunk in
    let rest =
      merge_chunks fuel chunk
        (record m { size = update m.size chunk (as_size (m.size chunk + m.size other)) }) in
    if (other != 0) && (ltb other m.kern_heap && not (m.used other)) then rest else ok m

unfoldable pub kfree : (fuel v_addr : ℕ) → Mm → Run Mm
unfolding merge_chunks
kfree fuel v_addr m = merge_chunks fuel (v_addr - header) (record m {
  used = update m.used (v_addr - header) false;
  kmalloc_used = (m.kmalloc_used + 2 ^ 32 - m.size (v_addr - header)) % 2 ^ 32;
})
