-- ===== src/Linked.antt =====
-- The linked lists of kern/list.h: circular, with a head of its own, and both ways. The store maps an
-- address to the fields of the list_head there.
pub mod Order
use creeks_old.Base.{ℕ, Bool, ◌==◌, update}

pub record Heads : Type 0 where
  next : ℕ → ℕ
  prev : ℕ → ℕ

unfoldable pub set_next : ℕ → ℕ → Heads → Heads
set_next p q s = record s { next = update s.next p q }

unfoldable pub set_prev : ℕ → ℕ → Heads → Heads
set_prev p q s = record s { prev = update s.prev p q }

unfoldable pub init_list_head : ℕ → Heads → Heads
unfolding set_next set_prev
init_list_head list s = set_prev list list (set_next list list s)

unfoldable pub list_add : (new head : ℕ) → Heads → Heads
unfolding set_next set_prev
list_add new head s =
    let ahead = set_next new (s.next head) s in
    let behind = set_prev new head ahead in
    let back = set_prev (behind.next head) new behind in set_next head new back

unfoldable pub list_del : ℕ → Heads → Heads
unfolding set_next set_prev
list_del p s =
    let skipped = set_prev (s.next p) (s.prev p) s in
    let joined = set_next (skipped.prev p) (skipped.next p) skipped in
    set_prev p 0 (set_next p 0 joined)

unfoldable pub list_empty : ℕ → Heads → Bool
list_empty head s = s.next head == head
