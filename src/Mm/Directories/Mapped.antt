-- ===== src/Mm/Directories/Mapped.antt =====
-- What the page tables of a process map after pd_add_page of kern/mm.c.
use creeks_old.Base.{
  ℕ, ◌+◌, ◌*◌, ◌/◌, ◌%◌, ◌^◌, ◌<◌, ◌≡◌, ◌∙◌, ◌⊎◌, refl, ap, inl, inr, true, Bool-cases, ◌==◌,
  if◌then◌else◌, arith,
}
use Prim.Native.Nat.{bit_and}
use creeks_old.Mm.Paging.{Mirror, pde_address, pte_address, page_entry, is_present, get_p_addr}
use creeks_old.Mm.Paging.Addresses.{pde_address_lem, pte_address_lem}
use creeks_old.Mm.Paging.Entries.{present_bit, page_entry_lem}
use creeks_old.Mm.Directories.{show_table}

-- What an address of the first page of a new table is looked up as, by the word that was left there.
abbrev pub stale_address : (stale w : ℕ) → ℕ
stale_address stale w =
    if is_present stale then bit_and stale 0xFFFFF000 + bit_and w 0x00000FFF else 0

-- What an address of a new table is looked up as.
abbrev pub in_new_table : (stale w : ℕ) → ℕ
in_new_table stale w = if w / 2 ^ 12 % 1024 == 0 then stale_address stale w else 0

module _ (v table flags stale w : ℕ) (m : Mirror) (user : v < 0xFFC00000) (frame : table < 2 ^ 20)
    (fl : (flags ≡ 0) ⊎ (flags ≡ 4)) (wide : w < 0xFFC00000) where
  abbrev shown : Mirror
  shown = show_table v (table * 2 ^ 12) flags stale m

  pub entry_present : is_present (page_entry (table * 2 ^ 12) flags) ≡ true
  entry_present =
      let odd : (table * 2 ^ 12 + (3 + flags)) % 2 ≡ 1 = ground (arith, fl) in
      present_bit (page_entry (table * 2 ^ 12) flags)
      ∙ (ap (λ e. e % 2 == 1) (page_entry_lem table flags fl) ∙ ap (λ b. b == 1) odd)

  pub pde_of :
      shown (pde_address w)
      ≡ (if w / 2 ^ 22 == v / 2 ^ 22 then page_entry (table * 2 ^ 12) flags else m (pde_address w))
  unfolding show_table
  pde_of = ground (arith, pde_address_lem w (omega arith), pde_address_lem v (omega arith))

  pte_of : shown (pte_address w) ≡ (
      if w / 2 ^ 22 == v / 2 ^ 22
      then (if w / 2 ^ 12 % 1024 == 0 then stale else 0)
      else m (pte_address w))
  unfolding show_table
  pte_of = ground (arith, pte_address_lem w (omega arith), pde_address_lem v (omega arith))

  pub get_p_addr-show_table :
      get_p_addr w shown
      ≡ (if w / 2 ^ 22 == v / 2 ^ 22 then in_new_table stale w else get_p_addr w m)
  unfolding get_p_addr
  get_p_addr-show_table = elim (Bool-cases (w / 2 ^ 22 == v / 2 ^ 22)) [
    | inr apart ↦ rw (pde_of, pte_of, apart) refl
    | inl same ↦
        rw (pde_of, pte_of, same, entry_present)
          (elim (Bool-cases (w / 2 ^ 12 % 1024 == 0)) [
            | inl first ↦ rw first refl
            | inr other ↦ rw other (ground arith)
          ])
  ]
