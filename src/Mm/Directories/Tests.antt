-- ===== src/Mm/Directories/Tests.antt =====
-- A witness for pd_add_page of kern/mm.c, on a small heap.
use creeks_old.Base.{◌+◌, ◌≡◌, refl, false, inr, some, List, [], ◌∷◌, ◌==◌, if◌then◌else◌, arith}
use creeks_old.Base.Bits.{bit_at}
use creeks_old.Mm.State.{Mm, Run, ok, halted, hangs, unbacked}
use creeks_old.Mm.Kmalloc.{kern_heap_base, kmalloc}
use creeks_old.Mm.Frames.{get_page_frame}
use creeks_old.Mm.Paging.{get_p_addr, is_present, pde_address, pd0_add_page}
use creeks_old.Mm.Areas.{VmArea, Page, get_page_from_heap}
use creeks_old.Mm.Directories.{Memory, pd_add_page}
use creeks_old.Mm.Directories.Faults.{pd_add_page_new_table}

-- One free chunk, one free area, and no table for the addresses from 0x40000000 on.
abbrev no_table : Mm
no_table = record {
  bitmap = λ i. 0;
  mirror = λ a. if a == 0xFFFFF400 then 0 else 0x7003;
  kern_heap = kern_heap_base + 4096;
  size = λ a. if a == kern_heap_base then 4096 else 0;
  used = λ a. false;
  kmalloc_used = 0;
}

abbrev areas : List VmArea
areas = record { address = 0x10000008; vm_start = 0x800000; vm_end = 0x10000000 } ∷ []

-- What a run gives, if it gives anything.
abbrev result : Run (Page × Memory) → Page × Memory
result halted = (record { address = 0; v_addr = 0; p_addr = 0 }, ([], no_table))
result unbacked = (record { address = 0; v_addr = 0; p_addr = 0 }, ([], no_table))
result hangs = (record { address = 0; v_addr = 0; p_addr = 0 }, ([], no_table))
result (ok r) = r

abbrev taken : Page × Memory
taken = result (get_page_from_heap 3 areas no_table)

got : get_page_from_heap 3 areas no_table ≡ ok taken
unfolding get_page_from_heap pd0_add_page pde_address get_page_frame kmalloc
got = refl

absent : is_present (no_table.mirror (pde_address 0x40003000)) ≡ false
unfolding pde_address
absent = refl

frame_0 : (taken.0).p_addr ≡ 0
unfolding get_page_from_heap pd0_add_page pde_address get_page_frame kmalloc bit_at
frame_0 = refl

pd_add_page_new_table_example :
    (m'' : Mm) × ((pd_add_page 3 0x40003000 0x9000 4 0x5007 (some []) (areas, no_table)
        ≡ ok (some ((taken.0) ∷ []), (taken.1.0, m'')))
      × (get_p_addr 0x40003123 m''.mirror ≡ 0x9123))
pd_add_page_new_table_example =
    pd_add_page_new_table 3 0x40003000 9 4 0x5007 (some []) areas no_table (omega arith)
      (omega arith) (inr refl) (taken.0) (taken.1.0) (taken.1.1) 0 absent got frame_0 (omega arith)
      0x40003123 (omega arith)
