-- ===== src/Mm/Directories/Faults.antt =====
-- Pages that pd_add_page of kern/mm.c maps, in a table that was there or in a new one.
use creeks_old.Base.{
  ℕ, ◌+◌, ◌*◌, ◌/◌, ◌%◌, ◌^◌, ◌<◌, ◌≡◌, ◌∙◌, ◌⊎◌, refl, ap, true, false, Option, List, ◌==◌,
  ==_self, if◌then◌else◌, arith,
}
use creeks_old.Mm.State.{Mm, ok, ◌>>=◌ as bind}
use creeks_old.Mm.Paging.{pde_address, page_entry, is_present, get_p_addr}
use creeks_old.Mm.Paging.Entries.{get_p_addr-mapped}
use creeks_old.Mm.Areas.{VmArea, Page, get_page_from_heap}
use creeks_old.Mm.Directories.{add_to, show_table, set_pte, pd_add_page, add_table}
use creeks_old.Mm.Directories.Mapped.{in_new_table, get_p_addr-show_table, pde_of, entry_present}

module _ (fuel v page flags stale : ℕ) (pd : Option (List Page)) (areas : List VmArea) (m : Mm)
    (user : v < 0xFFC00000) (frame : page < 2 ^ 20) (fl : (flags ≡ 0) ⊎ (flags ≡ 4)) where
  -- When the table is there, pd_add_page ends, keeps the list of tables, and maps the page.
  present_lem :
      is_present (m.mirror (pde_address v)) ≡ true
      → (w : ℕ) → w < 2 ^ 32
      → (m' : Mm) × ((pd_add_page fuel v (page * 2 ^ 12) flags stale pd (areas, m)
            ≡ ok (pd, (areas, m')))
          × (get_p_addr w m'.mirror ≡ (
              if w / 2 ^ 12 == v / 2 ^ 12
              then page * 2 ^ 12 + w % 2 ^ 12
              else get_p_addr w m.mirror)))
  unfolding pd_add_page set_pte
  present_lem here w wide = (
    record m { mirror = set_pte v (page * 2 ^ 12) flags m.mirror },
    (rw here refl, get_p_addr-mapped v page flags w m.mirror user frame fl wide here),
  )

  -- When an address below the tables has no table, and a page in the first 2^32 bytes can be taken from
  -- the kernel's heap of pages for one, pd_add_page takes it and puts it in front of the tables of the
  -- directory, if one is given. Then the addresses of the page lead to its frame. Of the other addresses that the
  -- new table is for, those of its first page are looked up by whatever word the page for the table held
  -- before, since the loop that clears it begins with the index 1, and the others lead to nothing. All
  -- others below the tables themselves are looked up as they are once the page for the table is taken,
  -- which maps that page itself.
  pub pd_add_page_new_table :
      (pg : Page) (areas' : List VmArea) (m' : Mm) (table : ℕ)
      → is_present (m.mirror (pde_address v)) ≡ false
      → get_page_from_heap fuel areas m ≡ ok (pg, (areas', m'))
      → pg.p_addr ≡ table * 2 ^ 12
      → table < 2 ^ 20
      → (w : ℕ) → w < 0xFFC00000
      → (m'' : Mm) × ((pd_add_page fuel v (page * 2 ^ 12) flags stale pd (areas, m)
            ≡ ok (add_to pg pd, (areas', m'')))
          × (get_p_addr w m''.mirror ≡ (
              if w / 2 ^ 12 == v / 2 ^ 12
              then page * 2 ^ 12 + w % 2 ^ 12
              else if w / 2 ^ 22 == v / 2 ^ 22
              then in_new_table stale w
              else get_p_addr w m'.mirror)))
  unfolding pd_add_page set_pte
  pd_add_page_new_table pg areas' m' table absent got at small w wide =
      let shown = show_table v (table * 2 ^ 12) flags stale m'.mirror in
      let here : is_present (shown (pde_address v)) ≡ true =
        ap is_present (pde_of v table flags stale v m'.mirror user small fl user)
        ∙ (ap
              (λ b.
                is_present
                  (if b then page_entry (table * 2 ^ 12) flags else m'.mirror (pde_address v)))
              (==_self (v / 2 ^ 22))
            ∙ entry_present v table flags stale v m'.mirror user small fl user) in
      (
        record m' { mirror = set_pte v (page * 2 ^ 12) flags shown },
        (
          rw absent (
              ap (λ r. bind r (add_table v (page * 2 ^ 12) flags stale pd)) got
              ∙ ap
                  (λ p. ok (
                    add_to pg pd,
                    (
                      areas',
                      record m' {
                        mirror =
                            set_pte v (page * 2 ^ 12) flags (show_table v p flags stale m'.mirror);
                      },
                    ),
                  ))
                  at),
          get_p_addr-mapped v page flags w shown user frame fl (omega (arith, wide)) here
              ∙ ap (λ x. if w / 2 ^ 12 == v / 2 ^ 12 then page * 2 ^ 12 + w % 2 ^ 12 else x)
                  (get_p_addr-show_table v table flags stale w m'.mirror user small fl wide),
        ),
      )
