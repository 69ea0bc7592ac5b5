-- ===== src/Descriptors/Lowest.antt =====
-- Which descriptor `sys_open` of kern/syscalls/sys_open.c gives.
use creeks_old.Base.{
  ℕ, zero, suc, ◌+◌, ◌<◌, ◌≡◌, ◌≢◌, inl, inr, refl, ap, sym, subst, Option-cases, none, some, List,
  [], ◌∷◌, get_elem?, arith, update_ne,
}
use mathlib.Core.Option.{some-injective}
use creeks_old.Descriptors.{OpenFile, Files, at_start, take_descriptor, sys_open}

abbrev pub IsUsed : OpenFile → Type 0
IsUsed of = of.file ≢ none

-- From `old` to `new` the lowest free descriptor `fd` was given to the file `fp`.
pub record LowestTaken (fp fd : ℕ) (old new : List OpenFile) : Type 0 where
  pub taken : get_elem? new fd ≡ some (at_start fp)
  pub others : (i : ℕ) → i ≢ fd → get_elem? new i ≡ get_elem? old i
  pub below : (i : ℕ) → i < fd → (of : OpenFile) × ((get_elem? old i ≡ some of) × IsUsed of)
  pub free : (of : OpenFile) → get_elem? old fd ≡ some of → of.file ≡ none

behind_first :
    (a b : OpenFile) (next : List OpenFile) (i : ℕ)
    → i ≢ 0
    → get_elem? (a ∷ next) i ≡ get_elem? (b ∷ next) i
behind_first a b next zero h = absurd (h refl)
behind_first a b next (suc i) h = refl

behind_only : (a : OpenFile) (i : ℕ) → i ≢ 0 → get_elem? (a ∷ []) i ≡ none
behind_only a zero h = absurd (h refl)
behind_only a (suc i) h = refl

module _ (fp fd : ℕ) (of : OpenFile) (next new : List OpenFile) (used : IsUsed of)
    (l : LowestTaken fp fd next new) where
  later_others : (i : ℕ) → i ≢ suc fd → get_elem? (of ∷ new) i ≡ get_elem? (of ∷ next) i
  later_others zero h = refl
  later_others (suc i) h = l.others i (λ e. h (ap suc e))

  later_below :
      (i : ℕ) → i < suc fd → (o : OpenFile) × ((get_elem? (of ∷ next) i ≡ some o) × IsUsed o)
  later_below zero h = (of, (refl, used))
  later_below (suc i) h = l.below i (omega arith)

  later_taken : LowestTaken fp (suc fd) (of ∷ next) (of ∷ new)
  later_taken = record {
    taken = l.taken;
    others = later_others;
    below = later_below;
    free = l.free;
  }

first_taken :
    (fp : ℕ) (of : OpenFile) (next : List OpenFile)
    → of.file ≡ none
    → LowestTaken fp 0 (of ∷ next) (at_start fp ∷ next)
first_taken fp of next free = record {
  taken = refl;
  others = behind_first (at_start fp) of next;
  below = λ i h. absurd (omega arith);
  free = λ o e. subst (λ (x : OpenFile). x.file ≡ none) (some-injective _ _ e) free;
}

take_free :
    (fp : ℕ) (of : OpenFile) (next : List OpenFile)
    → of.file ≡ none
    → take_descriptor fp (of ∷ next) ≡ (0, at_start fp ∷ next)
unfolding take_descriptor
take_free fp of next e = ground (arith, e)

take_later :
    (fp f : ℕ) (of : OpenFile) (next : List OpenFile)
    → of.file ≡ some f
    → take_descriptor fp (of ∷ next)
      ≡ (suc ((take_descriptor fp next).0), of ∷ (take_descriptor fp next).1)
unfolding take_descriptor
take_later fp f of next e = ground (arith, e)

take_descriptor-LowestTaken :
    (fp : ℕ) (chain : List OpenFile)
    → LowestTaken fp (take_descriptor fp chain).0 chain (take_descriptor fp chain).1
unfolding take_descriptor
take_descriptor-LowestTaken fp [] = record {
  taken = refl;
  others = behind_only (at_start fp);
  below = λ i h. absurd (omega arith);
  free = λ of e. absurd (ground (arith, e));
}
take_descriptor-LowestTaken fp (of ∷ next) =
    let Taken = λ (r : ℕ × List OpenFile). LowestTaken fp r.0 (of ∷ next) r.1 in
    elim (Option-cases of.file) [
      | inl free ↦ subst Taken (sym (take_free fp of next free)) (first_taken fp of next free)
      | inr (f, used) ↦
          let kept : IsUsed of = λ e. ground (arith, e, used) in
          subst Taken (sym (take_later fp f of next used)) (
            later_taken fp (take_descriptor fp next).0 of next (take_descriptor fp next).1 kept
              (take_descriptor-LowestTaken fp next))
    ]

-- sys_open of a file that was found answers the lowest descriptor without an open file, or the one
-- behind the last; that descriptor then stands at the start of the file, and every other one stays
-- as it was. The file is counted as opened once more, and no other file changes.
pub sys_open-LowestTaken :
    (inode_size read_file : ℕ → ℕ) (fp : ℕ) (st : Files)
    → (fd : ℕ) × ((st' : Files) × ((sys_open inode_size read_file (some fp) st ≡ (some fd, st'))
          × (LowestTaken fp fd st.fd st'.fd
              × (((st'.files fp).opened ≡ (st.files fp).opened + 1)
                  × ((f : ℕ) → f ≢ fp → st'.files f ≡ st.files f)))))
unfolding sys_open
sys_open-LowestTaken inode_size read_file fp st = (
  (take_descriptor fp st.fd).0,
  (
    _,
    (
      refl,
      (take_descriptor-LowestTaken fp st.fd, (ground arith, λ f ne. update_ne st.files fp f _ ne)),
    ),
  ),
)
