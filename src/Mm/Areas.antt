-- ===== src/Mm/Areas.antt =====
-- The free virtual pages of the kernel, the list `kern_free_vm` of kern/mm.c, as get_page_from_heap
-- and release_page_from_heap change it: areas in ascending order.
pub mod Ordered
mod Tests
use creeks_old.Base.{
  ℕ, zero, suc, ◌+◌, ◌*◌, ◌/◌, Bool, true, false, Option, none, some, List, [], ◌∷◌, ◌++◌, ◌==◌,
  ltb, if◌then◌else◌, update,
}
use creeks_old.Base.Options.{◌>>=◌}
use creeks_old.Mm.Frames.{page_size, Bitmap, get_page_frame, release_page_frame}
use creeks_old.Mm.State.{Mm, Run, ok, halted, ◌>>=◌ as bind}
use creeks_old.Mm.Kmalloc.{kmalloc, kfree}
use creeks_old.Mm.Paging.{Mirror, get_p_addr, pd0_add_page, pd_remove_page}

-- `struct vm_area`, with the address of the structure.
pub record VmArea : Type 0 where
  pub address : ℕ
  pub vm_start : ℕ
  pub vm_end : ℕ

-- `struct page`, with the address of the structure.
pub record Page : Type 0 where
  pub address : ℕ
  pub v_addr : ℕ
  pub p_addr : ℕ

-- The size of either structure.
abbrev pub struct_size : ℕ
struct_size = 16

-- What a change of the list asks of the heap: a structure to be released, a new one, or nothing.
pub data Change : Type 0 where
  keeps : List VmArea → Change
  releases : ℕ → List VmArea → Change
  allocates : (ℕ → List VmArea) → Change

-- A list behind what was changed.
abbrev pub followed_by : Change → List VmArea → Change
followed_by (keeps l) areas = keeps (l ++ areas)
followed_by (releases a l) areas = releases a (l ++ areas)
followed_by (allocates l) areas = allocates (λ a. l a ++ areas)

abbrev pub behind : VmArea → Change → Change
behind area (keeps l) = keeps (area ∷ l)
behind area (releases a l) = releases a (area ∷ l)
behind area (allocates l) = allocates (λ a. area ∷ l a)

-- The first free page, and the list without it; `none` is the panic that none is left.
unfoldable pub take_page : List VmArea → Option (ℕ × Change)
take_page [] = none
take_page (area ∷ areas) =
    let start = area.vm_start + page_size in
    if start == area.vm_end
    then some (area.vm_start, releases area.address areas)
    else some (area.vm_start, keeps (record area { vm_start = start } ∷ areas))

-- A page given back between two areas. `none` is the panic that the list is corrupt.
unfoldable pub join : ℕ → (prev_area next_area : VmArea) → Option Change
join v_addr prev_area next_area =
    let longer = prev_area.vm_end + page_size in
    if prev_area.vm_end == v_addr
    then (if longer == next_area.vm_start
        then some (releases next_area.address (record prev_area { vm_end = next_area.vm_end } ∷ []))
        else some (keeps (record prev_area { vm_end = longer } ∷ next_area ∷ [])))
    else if next_area.vm_start == v_addr + page_size
    then some (keeps (prev_area ∷ record next_area { vm_start = v_addr } ∷ []))
    else if ltb (v_addr + page_size) next_area.vm_start
    then some (
        allocates (λ a.
          prev_area
          ∷ record { address = a; vm_start = v_addr; vm_end = v_addr + page_size }
          ∷ next_area
          ∷ []))
    else none

-- The search for the first area behind the page, from the second area on. At an end of the list the
-- code reads the list's head as an area, which is not covered: `none`.
unfoldable pub put_behind : ℕ → VmArea → List VmArea → Option Change
unfolding join
put_behind v_addr prev_area [] = none
put_behind v_addr prev_area (next_area ∷ areas) =
    let rest = put_behind v_addr next_area areas in
    if ltb v_addr next_area.vm_start
    then (join v_addr prev_area next_area >>= (λ c. some (followed_by c areas)))
    else (rest >>= (λ c. some (behind prev_area c)))

unfoldable pub put_page : ℕ → List VmArea → Option Change
unfolding put_behind
put_page v_addr [] = none
put_page v_addr (area ∷ areas) =
    if ltb v_addr area.vm_start then none else put_behind v_addr area areas

-- What a change asks of the heap is done.
unfoldable pub apply : ℕ → Change → Mm → Run (List VmArea × Mm)
apply fuel (keeps areas) m = ok (areas, m)
apply fuel (releases a areas) m = bind (kfree fuel a m) (λ m'. ok (areas, m'))
apply fuel (allocates areas) m =
    bind (kmalloc fuel struct_size m) (λ new. ok (areas (new.0), new.1))

unfoldable pub get_page_from_heap : ℕ → List VmArea → Mm → Run (Page × (List VmArea × Mm))
unfolding take_page apply
get_page_from_heap fuel areas m =
    let frame = get_page_frame m.bitmap in
    elim (take_page areas) [
      | none ↦ halted
      | some (v_addr, change) ↦ bind (apply fuel change (record m { bitmap = frame.1 })) (λ taken.
          elim (pd0_add_page v_addr (frame.0) 0 (taken.1).mirror) [
            | none ↦ halted
            | some mirror ↦
                bind (kmalloc fuel struct_size (record (taken.1) { mirror = mirror })) (λ new.
                  ok (
                    record { address = new.0; v_addr = v_addr; p_addr = frame.0 },
                    (taken.0, new.1),
                  ))
          ])
    ]

-- The answer is 1 when no frame belongs to the address, else 0. `halted` stands for the panic, and
-- for the cases at the ends of the list.
unfoldable pub release_page_from_heap : ℕ → ℕ → List VmArea → Mm → Run (ℕ × (List VmArea × Mm))
unfolding put_page apply
release_page_from_heap fuel v_addr areas m =
    let p_addr = get_p_addr v_addr m.mirror in
    let freed = record m {
      bitmap = release_page_frame p_addr m.bitmap;
      mirror = pd_remove_page v_addr m.mirror;
    } in
    let given : Run (ℕ × (List VmArea × Mm)) = elim (put_page v_addr areas) [
      | none ↦ halted
      | some change ↦ bind (apply fuel change freed) (λ r. ok (0, r))
    ] in
    if p_addr == 0 then ok (1, (areas, m)) else given
