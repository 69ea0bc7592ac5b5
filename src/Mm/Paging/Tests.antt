-- ===== src/Mm/Paging/Tests.antt =====
-- Runs of the page tables, and their theorems at concrete words.
use creeks_old.Base.{◌*◌, ◌^◌, ◌≡◌, ◌≢◌, refl, some, inl, arith, update}
use creeks_old.Mm.Paging.{Mirror, pde_address, pte_address, page_entry, get_p_addr, pd0_add_page}
use creeks_old.Mm.Paging.Addresses.{pde_address_lem, pte_address_lem}
use creeks_old.Mm.Paging.Entries.{get_p_addr-pd0_add_page}

-- Every table is present, and maps to page 7.
abbrev all_seven : Mirror
all_seven a = 0x7003

abbrev with_page : Mirror
with_page = update all_seven (pte_address 0x800123) (page_entry (5 * 2 ^ 12) 0)

mapped : pd0_add_page 0x800123 (5 * 2 ^ 12) 0 all_seven ≡ some with_page
unfolding pd0_add_page
mapped = refl

pde_address_lem_example : pde_address 0x800123 ≡ 0xFFFFF008
pde_address_lem_example = pde_address_lem 0x800123 (omega arith)

pte_address_lem_example : pte_address 0x800123 ≡ 0xFFC02000
pte_address_lem_example = pte_address_lem 0x800123 (omega arith)

get_p_addr-pd0_add_page_example : get_p_addr 0x800456 with_page ≡ 0x5456
get_p_addr-pd0_add_page_example =
    get_p_addr-pd0_add_page 0x800123 5 0 0x800456 all_seven (omega arith) (omega arith) (inl refl)
      (omega arith) with_page mapped

found : get_p_addr 0x800123 all_seven ≢ 0
unfolding get_p_addr
found = omega arith
