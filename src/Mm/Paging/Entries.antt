-- ===== src/Mm/Paging/Entries.antt =====
-- Mapping a page, looking an address up, and unmapping a page.
use creeks_old.Base.{
  ℕ, ◌+◌, ◌*◌, ◌/◌, ◌%◌, ◌^◌, ◌≤◌, ◌<◌, ◌≡◌, ◌≢◌, ◌∙◌, refl, ap, true, arith, some, inl, inr, ◌⊎◌,
  Bool-cases, ◌==◌, eq_of_==, ne_of_==, if◌then◌else◌, update,
}
use creeks_old.Base.Bits.Words.{bit_and-ones, bit_and-high, bit_or-disjoint, bit_and_step}
use creeks_old.Mm.Paging.{
  Mirror, user_offset, pde_address, pte_address, page_entry, is_present, get_p_addr, pd0_add_page,
  pd_remove_page,
}
use creeks_old.Mm.Paging.Addresses.{pde_address_lem, pte_address_lem}
use Prim.Native.Nat.{bit_and}

-- The physical address in an entry.
frame_field : (entry : ℕ) → entry < 2 ^ 32 → bit_and entry 0xFFFFF000 ≡ entry / 2 ^ 12 * 2 ^ 12
frame_field entry h =
    omega (arith, bit_and-high 12 entry 0xFFFFF, bit_and-ones 20 (entry / 2 ^ 12) 0xFFFFF refl)

page_offset : (v : ℕ) → bit_and v 0x00000FFF ≡ v % 2 ^ 12
page_offset v = bit_and-ones 12 v 0xFFF refl

pub present_bit : (entry : ℕ) → is_present entry ≡ (entry % 2 == 1)
present_bit entry =
    let e : bit_and entry 1 ≡ entry % 2 = bit_and-ones 1 entry 1 refl in rw e (ground arith)

-- An entry made for a page-aligned frame and the flags 0 or PG_USER.
pub page_entry_lem :
    (page flags : ℕ)
    → (flags ≡ 0) ⊎ (flags ≡ 4)
    → page_entry (page * 2 ^ 12) flags ≡ page * 2 ^ 12 + (3 + flags)
unfolding page_entry
page_entry_lem page flags (inl z) = rw z (bit_or-disjoint 12 page 3 (omega arith))
page_entry_lem page flags (inr z) = rw z (bit_or-disjoint 12 page 7 (omega arith))

module _ (v page flags w : ℕ) (m : Mirror) (low : v < 0xFFC00000) (frame : page < 2 ^ 20)
    (fl : (flags ≡ 0) ⊎ (flags ≡ 4)) (wide : w < 2 ^ 32) where
  abbrev pub mapped : Mirror
  mapped = update m (pte_address v) (page_entry (page * 2 ^ 12) flags)

  pde_kept : mapped (pde_address w) ≡ m (pde_address w)
  pde_kept = ground (arith, pde_address_lem w wide, pte_address_lem v (omega arith))

  pte_kept : w / 2 ^ 12 ≢ v / 2 ^ 12 → mapped (pte_address w) ≡ m (pte_address w)
  pte_kept ne = ground (arith, pte_address_lem w wide, pte_address_lem v (omega arith))

  pte_set : w / 2 ^ 12 ≡ v / 2 ^ 12 → mapped (pte_address w) ≡ page * 2 ^ 12 + (3 + flags)
  pte_set e =
      ground (
        arith,
        pte_address_lem w wide,
        pte_address_lem v (omega arith),
        page_entry_lem page flags fl,
      )

  -- The entry of a page is set, and its table is there.
  pub get_p_addr-mapped :
      is_present (m (pde_address v)) ≡ true
      → get_p_addr w mapped
        ≡ (if w / 2 ^ 12 == v / 2 ^ 12 then page * 2 ^ 12 + w % 2 ^ 12 else get_p_addr w m)
  unfolding get_p_addr
  get_p_addr-mapped here = elim (Bool-cases (w / 2 ^ 12 == v / 2 ^ 12)) [
    | inl e ↦
        let same : w / 2 ^ 12 ≡ v / 2 ^ 12 = eq_of_== _ _ e in
        let dir : pde_address w ≡ pde_address v =
          omega (arith, pde_address_lem w wide, pde_address_lem v (omega arith)) in
        rw (e, pde_kept, pte_set same, page_offset w, dir, here)
          (ground (
            arith,
            bit_and-ones 1 (page * 2 ^ 12 + (3 + flags)) 1 refl,
            frame_field (page * 2 ^ 12 + (3 + flags)) (ground arith),
          ))
    | inr e ↦ rw (e, pde_kept, pte_kept (ne_of_== _ _ e)) refl
  ]

module _ (v page flags w : ℕ) (m : Mirror) (kernel : v ≤ user_offset) (frame : page < 2 ^ 20)
    (fl : (flags ≡ 0) ⊎ (flags ≡ 4)) (wide : w < 2 ^ 32) where
  -- When `pd0_add_page` maps a page of the kernel's space to a page-aligned frame, with flags 0 or
  -- PG_USER, then afterwards every address of that page is looked up as the same offset in the
  -- frame, and every address of another page as before.
  pub get_p_addr-pd0_add_page :
      (m' : Mirror)
      → pd0_add_page v (page * 2 ^ 12) flags m ≡ some m'
      → get_p_addr w m'
        ≡ (if w / 2 ^ 12 == v / 2 ^ 12 then page * 2 ^ 12 + w % 2 ^ 12 else get_p_addr w m)
  unfolding pd0_add_page
  get_p_addr-pd0_add_page m' h = elim (Bool-cases (is_present (m (pde_address v)))) [
    | inr absent ↦ ground (arith, absent)
    | inl here ↦
        let done : m' ≡ mapped v page flags w m (omega arith) frame fl wide =
          ground (arith, here) in
        ap (get_p_addr w) done ∙ get_p_addr-mapped v page flags w m (omega arith) frame fl wide here
  ]

module _ (v w : ℕ) (m : Mirror) (user : v < 0xFFC00000) (wide : w < 2 ^ 32) where
  cleared : bit_and (bit_and (m (pte_address v)) 0xFFFFFFFE) 1 ≡ 0
  cleared = omega (
    arith,
    bit_and-ones 1 (bit_and (m (pte_address v)) 0xFFFFFFFE) 1 refl,
    bit_and_step (m (pte_address v)) 0xFFFFFFFE,
  )

  -- When an address below those of the tables themselves is looked up as something other than 0,
  -- then after `pd_remove_page` every address of its page is looked up as 0, and every address of
  -- another page as before.
  pub get_p_addr-pd_remove_page :
      get_p_addr v m ≢ 0
      → get_p_addr w (pd_remove_page v m) ≡ (if w / 2 ^ 12 == v / 2 ^ 12 then 0 else get_p_addr w m)
  unfolding pd_remove_page get_p_addr
  get_p_addr-pd_remove_page found = elim (Bool-cases (w / 2 ^ 12 == v / 2 ^ 12)) [
    | inl e ↦ ground (
      arith,
      e,
      cleared,
      pde_address_lem w wide,
      pte_address_lem w wide,
      pde_address_lem v (omega arith),
      pte_address_lem v (omega arith),
    )
    | inr e ↦ ground (
      arith,
      e,
      pde_address_lem w wide,
      pte_address_lem w wide,
      pde_address_lem v (omega arith),
      pte_address_lem v (omega arith),
    )
  ]
