-- ===== src/Malloc.antt =====
-- The heap of a user process, usr/libc/malloc.c, on top of sys_sbrk of kern/syscalls/sys_sbrk.c. The
-- headers are functions from an address to size and mark; the loops run on fuel, `none` is a run
-- that has not ended. Pointer arithmetic is not reduced modulo 2^32.
mod Tests
use creeks_old.Base.{
  ℕ, zero, suc, ◌+◌, ◌-◌, ◌%◌, ◌^◌, Bool, true, false, Option, none, some, ◌==◌, ltb, ◌&&◌, ◌||◌,
  not, if◌then◌else◌, update,
}
use creeks_old.Base.Options.{◌>>=◌}

-- `MALLOC_MINSIZE` and `sizeof(struct malloc_header)`
abbrev pub malloc_minsize : ℕ
malloc_minsize = 16

abbrev pub malloc_header : ℕ
malloc_header = 4

-- `b_heap`, `e_heap`, the headers, and `current->e_heap` of the kernel.
pub record UserHeap : Type 0 where
  pub b_heap : ℕ
  pub e_heap : ℕ
  pub size : ℕ → ℕ
  pub used : ℕ → Bool
  pub top : ℕ

-- The old end of the heap, which grows by `size`.
unfoldable pub sys_sbrk : ℕ → UserHeap → ℕ × UserHeap
sys_sbrk size h = (h.top, record h { top = (h.top + size) % 2 ^ 32 })

-- `realsize`, a multiple of the minimal size.
unfoldable pub malloc_size : ℕ → ℕ
malloc_size size =
    let realsize = (malloc_header + size) % 2 ^ 32 in
    let i = realsize % malloc_minsize in
    if i == 0 then realsize else (realsize - i + malloc_minsize) % 2 ^ 32

-- An unused block of `realsize` bytes at `bl`; the size field is 31 bits wide.
unfoldable pub new_block : (realsize bl : ℕ) → UserHeap → UserHeap
new_block realsize bl h = record h {
  size = update h.size bl (realsize % 2 ^ 31);
  used = update h.used bl false;
}

-- `e_heap = sbrk(realsize)`, which a test for a negative pointer follows that never holds, and the
-- block there.
unfoldable pub extend_heap : ℕ → UserHeap → ℕ × UserHeap
unfolding sys_sbrk new_block
extend_heap realsize h0 =
    let (bl, h) = sys_sbrk realsize h0 in
    (bl, record (new_block realsize bl h) { e_heap = bl + realsize })

-- The loop of `malloc` from a block: the block that fits, or `none` where -1 is returned.
unfoldable pub find_block : (fuel realsize bl : ℕ) → UserHeap → Option (Option ℕ × UserHeap)
unfolding extend_heap
find_block zero realsize bl h = none
find_block (suc fuel) realsize bl h =
    let next = bl + h.size bl in
    let (new, grown) = extend_heap realsize h in
    let on_grown = find_block fuel realsize new grown in
    let on_next = find_block fuel realsize next h in
    if h.used bl || ltb (h.size bl) realsize
    then (if next == h.e_heap
        then on_grown
        else if ltb h.e_heap next
        then some (none, h)
        else on_next)
    else some (some bl, h)

-- The block is marked, and what is left of it becomes a block if it is large enough.
unfoldable pub take_block : (realsize bl : ℕ) → UserHeap → UserHeap
take_block realsize bl h =
    let left = (h.size bl + 2 ^ 32 - realsize) % 2 ^ 32 in
    if ltb left malloc_minsize then record h { used = update h.used bl true } else record h {
      size = update (update h.size (bl + realsize) (left % 2 ^ 31)) bl (realsize % 2 ^ 31);
      used = update (update h.used (bl + realsize) false) bl true;
    }

-- The first call makes the heap of one block.
unfoldable pub first_block : ℕ → UserHeap → Option ℕ × UserHeap
unfolding sys_sbrk new_block
first_block realsize h0 =
    let (bl, h) = sys_sbrk realsize h0 in
    let made = record (new_block realsize bl h) { b_heap = bl; e_heap = bl + realsize } in
    if bl == 2 ^ 32 - 1 then (none, record h { b_heap = bl }) else (some bl, made)

-- The address of the data, or -1.
unfoldable pub malloc : (fuel size : ℕ) → UserHeap → Option (ℕ × UserHeap)
unfolding malloc_size first_block find_block take_block
malloc fuel size h =
    let realsize = malloc_size size in
    (if h.b_heap == 0 then some (first_block realsize h) else find_block fuel realsize h.b_heap h)
    >>= (λ found. elim found.0 [
      | none ↦ some (2 ^ 32 - 1, found.1)
      | some bl ↦ some (bl + malloc_header, take_block realsize bl found.1)
    ])

-- The loop of `free`: the block takes in the unused ones behind it.
unfoldable pub merge_blocks : (fuel bl : ℕ) → UserHeap → Option UserHeap
merge_blocks zero bl h = none
merge_blocks (suc fuel) bl h =
    let nextbl = bl + h.size bl in
    let merged = record h { size = update h.size bl ((h.size bl + h.size nextbl) % 2 ^ 31) } in
    let rest = merge_blocks fuel bl merged in
    if not (nextbl == 0) && (ltb nextbl h.e_heap && not (h.used nextbl)) then rest else some h

unfoldable pub free : (fuel v_addr : ℕ) → UserHeap → Option UserHeap
unfolding merge_blocks
free fuel v_addr h = do
  merged ← merge_blocks fuel (v_addr - malloc_header) h
  some (record merged { used = update merged.used (v_addr - malloc_header) false })
