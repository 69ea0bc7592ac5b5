-- ===== src/Elf/Kept.antt =====
-- What `load_elf` of kern/elf.c leaves of a process as it was: everything but the zones.
use creeks_old.Base.{ℕ, zero, suc, ◌+◌, ◌≡◌, ◌∙◌, refl, inl, inr, Bool-cases, ◌==◌}
use creeks_old.Libc.{Bytes}
use creeks_old.Process.{Process}
use creeks_old.Elf.{
  Phdr, phdr_at, pt_load, is_in_user_space, copy_segment, segment_end, set_zones, pf_x, pf_w, pf_r,
  load_segments, is_elf, ehdr_at, load_elf,
}

pub record ZonesSet (p p' : Process) : Type 0 where
  pub pid : p'.pid ≡ p.pid
  pub parent : p'.parent ≡ p.parent
  pub child : p'.child ≡ p.child
  pub state : p'.state ≡ p.state

ZonesSet-refl : (p : Process) → ZonesSet p p
ZonesSet-refl p = record { pid = refl; parent = refl; child = refl; state = refl }

set_zones-ZonesSet : (h : Phdr) (v_end : ℕ) (p : Process) → ZonesSet p (set_zones h v_end p)
unfolding set_zones
set_zones-ZonesSet h v_end p = elim (Bool-cases (h.p_flags == pf_x + pf_r)) [
  | inl exec ↦ rw exec (record { pid = refl; parent = refl; child = refl; state = refl })
  | inr other ↦ rw other (elim (Bool-cases (h.p_flags == pf_w + pf_r)) [
    | inl bss ↦ rw bss (record { pid = refl; parent = refl; child = refl; state = refl })
    | inr none_set ↦ rw none_set (ZonesSet-refl p)
  ])
]

load_segments-ZonesSet :
    (left p_entry file entry : ℕ) (m : Bytes) (p : Process)
    → ZonesSet p (load_segments left p_entry file entry m p).process
unfolding load_segments
load_segments-ZonesSet zero p_entry file entry m p = ZonesSet-refl p
load_segments-ZonesSet (suc left) p_entry file entry m p =
    let h = phdr_at m p_entry in
    elim (Bool-cases (h.p_type == pt_load)) [
      | inr skip ↦ rw skip (load_segments-ZonesSet left (p_entry + 32) file entry m p)
      | inl load ↦ rw load (elim (Bool-cases (is_in_user_space h)) [
        | inr outside ↦ rw outside (ZonesSet-refl p)
        | inl inside ↦ rw inside (
            let q = set_zones h (segment_end h) p in
            let s = set_zones-ZonesSet h (segment_end h) p in
            let r =
              load_segments-ZonesSet left (p_entry + 32) file entry (copy_segment file h m) q in
            record {
              pid = r.pid ∙ s.pid;
              parent = r.parent ∙ s.parent;
              child = r.child ∙ s.child;
              state = r.state ∙ s.state;
            })
      ])
    ]

pub load_elf-ZonesSet :
    (file : ℕ) (m : Bytes) (p : Process) → ZonesSet p (load_elf file m p).process
unfolding load_elf
load_elf-ZonesSet file m p =
    let h = ehdr_at m file in
    elim (Bool-cases (is_elf file m)) [
      | inl elf ↦ rw elf (load_segments-ZonesSet h.e_phnum (file + h.e_phoff) file h.e_entry m p)
      | inr other ↦ rw other (ZonesSet-refl p)
    ]
