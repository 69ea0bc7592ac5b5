-- ===== src/Mm/Directories.antt =====
-- The page directories of processes, kern/mm.c: pd_create, pd_destroy and pd_add_page, and the handler
-- of page faults in kern/interrupt.c. The words of a new directory are a function of the index. A table
-- that is put in the directory shows at its place in the last 4 MB; `stale` is the word that the frame
-- held at its index 0, which pd_add_page does not clear.
pub mod Mapped
pub mod Faults
mod Tests
use creeks_old.Base.{
  ℕ, suc, ◌+◌, ◌*◌, ◌/◌, ◌^◌, Bool, Option, none, some, List, [], ◌∷◌, ◌==◌, ltb, leb, ◌&&◌,
  if◌then◌else◌, update,
}
use Prim.Native.Nat.{bit_and}
use creeks_old.Elf.{user_stack}
use creeks_old.Mm.Frames.{get_page_frame}
use creeks_old.Mm.Paging.{
  Mirror, pg_user, user_offset, pde_address, pte_address, page_entry, is_present,
}
use creeks_old.Mm.State.{Mm, Run, ok, ◌>>=◌ as bind}
use creeks_old.Mm.Kmalloc.{kmalloc, kfree}
use creeks_old.Mm.Areas.{VmArea, Page, struct_size, get_page_from_heap, release_page_from_heap}

-- `struct page_directory`, with its address.
pub record PageDirectory : Type 0 where
  pub address : ℕ
  pub base : Page
  pub pt : List Page

-- The list of free virtual pages, and the state of memory management.
abbrev pub Memory : Type 0
Memory = List VmArea × Mm

-- The words of a new directory: the kernel's part, nothing for the user, and the directory itself.
unfoldable pub directory_words : (pd0 : ℕ → ℕ) (p_addr : ℕ) → ℕ → ℕ
unfolding page_entry
directory_words pd0 p_addr i =
    if ltb i 256 then pd0 i else if ltb i 1023 then 0 else page_entry p_addr 0

unfoldable pub pd_create :
    (fuel : ℕ) (pd0 : ℕ → ℕ) → Memory → Run (PageDirectory × ((ℕ → ℕ) × Memory))
unfolding directory_words
pd_create fuel pd0 (areas, m) = bind (kmalloc fuel 12 m) (λ new.
    bind (get_page_from_heap fuel areas (new.1)) (λ page. ok (
      record { address = new.0; base = page.0; pt = [] },
      (directory_words pd0 (page.0).p_addr, page.1),
    )))

-- The pages of the tables are given back, with their structures.
unfoldable pub release_tables : (fuel : ℕ) → List Page → Memory → Run Memory
release_tables fuel [] m = ok m
release_tables fuel (pg ∷ pt) (areas, m) =
    bind (release_page_from_heap fuel pg.v_addr areas m)
      (λ r. bind (kfree fuel pg.address (r.1.1)) (λ m'. release_tables fuel pt (r.1.0, m')))

unfoldable pub pd_destroy : (fuel : ℕ) → PageDirectory → Memory → Run Memory
unfolding release_tables
pd_destroy fuel pd m = bind (release_tables fuel pd.pt m) (λ t.
    bind (release_page_from_heap fuel pd.base.v_addr (t.0) (t.1))
      (λ r. bind (kfree fuel pd.address (r.1.1)) (λ m'. ok (r.1.0, m'))))

-- Where the words of the table for an address are.
abbrev pub table_base : ℕ → ℕ
table_base v_addr = 0xFFC00000 + v_addr / 2 ^ 22 * 0x1000

-- A cleared table is put in the directory.
unfoldable pub show_table : (v_addr p_addr flags stale : ℕ) → Mirror → Mirror
unfolding page_entry pde_address
show_table v_addr p_addr flags stale m =
    let table : Mirror = λ a.
      if leb (table_base v_addr) a && ltb a (table_base v_addr + 0x1000)
      then (if a == table_base v_addr then stale else 0)
      else m a in
    update table (pde_address v_addr) (page_entry p_addr flags)

unfoldable pub set_pte : (v_addr p_addr flags : ℕ) → Mirror → Mirror
unfolding page_entry pte_address
set_pte v_addr p_addr flags m = update m (pte_address v_addr) (page_entry p_addr flags)

-- `if (pd) list_add(&pg->list, &pd->pt);`
abbrev pub add_to : Page → Option (List Page) → Option (List Page)
add_to pg none = none
add_to pg (some pt) = some (pg ∷ pt)

-- What is done with the page for a new table.
unfoldable pub add_table :
    (v_addr p_addr flags stale : ℕ)
    → Option (List Page)
    → Page × Memory
    → Run (Option (List Page) × Memory)
unfolding show_table set_pte
add_table v_addr p_addr flags stale pd (pg, (areas, m)) =
    let shown = show_table v_addr pg.p_addr flags stale m.mirror in
    ok (add_to pg pd, (areas, record m { mirror = set_pte v_addr p_addr flags shown }))

-- The new table's page, if there is one, is added to the list of the directory, if that is given.
unfoldable pub pd_add_page :
    (fuel v_addr p_addr flags stale : ℕ)
    → Option (List Page)
    → Memory
    → Run (Option (List Page) × Memory)
unfolding set_pte pde_address add_table
pd_add_page fuel v_addr p_addr flags stale pd (areas, m) =
    let table = bind (get_page_from_heap fuel areas m) (add_table v_addr p_addr flags stale pd) in
    if is_present (m.mirror (pde_address v_addr))
    then ok (pd, (areas, record m { mirror = set_pte v_addr p_addr flags m.mirror }))
    else table

-- What a page fault leads to: a new page, or `sys_exit(1)`.
pub data Fault : Type 0 where
  exits : Fault
  mapped : List Page → Option (List Page) → Memory → Fault

-- `pglist` and the tables of the current process, before and after.
unfoldable pub isr_pf_exc :
    (fuel faulting_addr stale : ℕ) (pglist : List Page) (pd : Option (List Page))
    → Memory
    → Run Fault
unfolding pd_add_page
isr_pf_exc fuel faulting_addr stale pglist pd (areas, m) =
    let v_addr = faulting_addr / 0x1000 * 0x1000 in
    let page = bind (kmalloc fuel struct_size m) (λ new.
      let frame = get_page_frame (new.1).bitmap in
      let pg : Page = record { address = new.0; v_addr = v_addr; p_addr = frame.0 } in
      bind
        (pd_add_page fuel v_addr (frame.0) pg_user stale pd
          (areas, record (new.1) { bitmap = frame.1 }))
        (λ r. ok (mapped (pg ∷ pglist) (r.0) (r.1)))) in
    if leb user_offset faulting_addr && ltb faulting_addr user_stack then page else ok exits
