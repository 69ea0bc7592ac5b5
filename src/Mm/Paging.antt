-- ===== src/Mm/Paging.antt =====
-- The page tables as kern/mm.c sees them: through the last entry of the page directory, which maps
-- the directory and the tables at the top of the address space. `Mirror` holds the words there, by
-- their virtual address. The two tables of 4 MB pages are not walked by this code.
pub mod Addresses
pub mod Entries
mod Tests
use creeks_old.Base.{
  ℕ, ◌+◌, ◌*◌, ◌/◌, ◌%◌, ◌^◌, Bool, Option, none, some, ◌==◌, ◌!=◌, ltb, ◌&&◌, if◌then◌else◌,
  update,
}
use Prim.Native.Nat.{bit_and, bit_or}

abbrev pub Mirror : Type 0
Mirror = ℕ → ℕ

-- `PG_PRESENT`, `PG_WRITE`, `PG_USER`
abbrev pub pg_present : ℕ
pg_present = 0x1

abbrev pub pg_write : ℕ
pg_write = 0x2

abbrev pub pg_user : ℕ
pg_user = 0x4

-- `USER_OFFSET`
abbrev pub user_offset : ℕ
user_offset = 0x40000000

-- `(u32 *) (0xFFFFF000 | (((u32) v_addr & 0xFFC00000) >> 20))`
unfoldable pub pde_address : ℕ → ℕ
pde_address v_addr = bit_or 0xFFFFF000 (bit_and v_addr 0xFFC00000 / 2 ^ 20)

-- `(u32 *) (0xFFC00000 | (((u32) v_addr & 0xFFFFF000) >> 10))`
unfoldable pub pte_address : ℕ → ℕ
pte_address v_addr = bit_or 0xFFC00000 (bit_and v_addr 0xFFFFF000 / 2 ^ 10)

-- `((u32) p_addr) | (PG_PRESENT | PG_WRITE | flags)`
unfoldable pub page_entry : ℕ → ℕ → ℕ
page_entry p_addr flags = bit_or p_addr (bit_or (bit_or pg_present pg_write) flags)

-- `entry & PG_PRESENT`
abbrev pub is_present : ℕ → Bool
is_present entry = bit_and entry pg_present != 0

unfoldable pub get_p_addr : ℕ → Mirror → ℕ
get_p_addr v_addr m =
    if is_present (m (pde_address v_addr)) && is_present (m (pte_address v_addr))
    then bit_and (m (pte_address v_addr)) 0xFFFFF000 + bit_and v_addr 0x00000FFF
    else 0

-- `pd0_add_page`; `none` is the panic that the kernel has no such table. Above the kernel's space it
-- only prints an error.
unfoldable pub pd0_add_page : (v_addr p_addr flags : ℕ) → Mirror → Option Mirror
pd0_add_page v_addr p_addr flags m =
    if ltb user_offset v_addr
    then some m
    else if is_present (m (pde_address v_addr))
    then some (update m (pte_address v_addr) (page_entry p_addr flags))
    else none

-- `pd_remove_page`; the entry is also dropped from the processor's cache.
unfoldable pub pd_remove_page : ℕ → Mirror → Mirror
pd_remove_page v_addr m =
    if get_p_addr v_addr m != 0
    then update m (pte_address v_addr) (bit_and (m (pte_address v_addr)) 0xFFFFFFFE)
    else m
