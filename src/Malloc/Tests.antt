-- ===== src/Malloc/Tests.antt =====
-- Runs of the user's heap.
use creeks_old.Base.{ℕ, ◌≡◌, refl, Option, some, false}
use creeks_old.Base.Options.{◌>>=◌}
use creeks_old.Malloc.{
  UserHeap, malloc, malloc_size, first_block, find_block, take_block, extend_heap, sys_sbrk,
  new_block, free, merge_blocks,
}

abbrev no_heap : UserHeap
no_heap = record { b_heap = 0; e_heap = 0; size = λ a. 0; used = λ a. false; top = 0x40010000 }

abbrev two_blocks : Option (ℕ × UserHeap)
two_blocks = malloc 1 20 no_heap >>= (λ a. malloc 5 10 a.1)

-- The first block has 32 bytes, the second one stands behind it.
second_address : two_blocks >>= (λ r. some (r.0)) ≡ some 0x40010024
unfolding malloc malloc_size first_block find_block take_block extend_heap sys_sbrk new_block
second_address = refl

-- A freed block is found again.
freed_again :
    two_blocks >>= (λ r. free 5 0x40010004 (r.1) >>= (λ h. malloc 5 12 h >>= (λ s. some (s.0))))
    ≡ some 0x40010004
unfolding malloc malloc_size first_block find_block take_block extend_heap sys_sbrk new_block free
    merge_blocks
freed_again = refl
