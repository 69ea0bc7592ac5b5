-- ===== src/Files/Resolve.antt =====
-- What `path_to_file` of kern/file.c finds, told of the directories on the disk alone.
use creeks_old.Base.{
  ℕ, ◌<◌, ◌≡◌, ◌∙◌, refl, sym, ap, ap₂, subst, inl, inr, Bool, Bool-cases, Option-cases, true,
  false, Option, none, some, List, [], ◌∷◌, ◌||◌, if◌then◌else◌, arith,
}
use creeks_old.Base.Options.{◌>>=◌}
use creeks_old.Files.{
  FileSystem, Cache, same_name, dot, dot_dot, is_cached_leaf, enter_leaf, enter_dir,
}
use creeks_old.Files.Listing.{Entry, lookup}
use creeks_old.Files.Extends.{Extends, Extends-refl}
use creeks_old.Files.Cached.{IsCache, IsLeaf}
use creeks_old.Files.Entries.{Complete, find_leaf-All}
use creeks_old.Files.Directory.{is_dir, HasListing, Kept, get_dir_entries-Taken}

-- The number of an inode, and those of the directories above it, the nearest one first.
abbrev pub Place : Type 0
Place = ℕ × List ℕ

abbrev up : Place → Place
up (i, []) = (i, [])
up (i, j ∷ above) = (j, above)

-- The place of a leaf of a directory.
abbrev leaf_place : Place → Option ℕ → Option Place
leaf_place p none = none
leaf_place p (some j) = some (j, p.0 ∷ p.1)

module _ (fs : FileSystem) (dirs : ℕ → List Entry) where
  -- One name, from a place.
  unfoldable pub resolve_name : List ℕ → Place → Option Place
  unfolding same_name lookup
  resolve_name name p =
      let leaf = leaf_place p (lookup (dirs (p.0)) name) in
      if is_dir fs (p.0)
      then (if same_name dot_dot name
          then some (up p)
          else (if same_name dot name then some p else leaf))
      else none

  -- The names of a path one after the other.
  unfoldable pub resolve : List (List ℕ) → Place → Option Place
  unfolding resolve_name
  resolve [] p = some p
  resolve (n ∷ ns) p = resolve_name n p >>= resolve ns

  -- A file of the cache stands at a place; the directory above the root is the root.
  unfoldable pub IsAt : Cache → (f i : ℕ) → List ℕ → Type 0
  IsAt c f i [] = ((c.files f).inum ≡ i) × ((c.files f).parent ≡ f)
  IsAt c f i (j ∷ above) = ((c.files f).inum ≡ i) × IsAt c (c.files f).parent j above

  -- The answer of a search is the file at the place, or none where there is no place.
  abbrev pub Found : Cache → Option ℕ → Option Place → Type 0
  Found c r none = r ≡ none
  Found c r (some (i, above)) = (f : ℕ) × ((r ≡ some f) × ((f < c.new) × IsAt c f i above))

  pub IsAt-inum : (c : Cache) (f i : ℕ) (above : List ℕ) → IsAt c f i above → (c.files f).inum ≡ i
  unfolding IsAt
  IsAt-inum c f i [] (e, r) = e
  IsAt-inum c f i (j ∷ above) (e, r) = e

  pub IsAt-later :
      (c d : Cache) (f i : ℕ) (above : List ℕ)
      → IsCache fs dirs c
      → Extends c d
      → f < c.new
      → IsAt c f i above
      → IsAt d f i above
  unfolding IsAt
  IsAt-later c d f i [] ok x h (e, root) = (x.inum f h ∙ e, x.parent f h ∙ root)
  IsAt-later c d f i (j ∷ above) ok x h (e, r) = (
    x.inum f h ∙ e,
    subst (λ p. IsAt d p j above) (sym (x.parent f h))
        (IsAt-later c d (c.files f).parent j above ok x (ok f h).parent r),
  )

  IsAt-up :
      (c : Cache) (f i : ℕ) (above : List ℕ)
      → IsAt c f i above
      → IsAt c (c.files f).parent ((up (i, above)).0) ((up (i, above)).1)
  unfolding IsAt
  IsAt-up c f i [] (e, root) =
      (ap (λ p. (c.files p).inum) root ∙ e, ap (λ p. (c.files p).parent) root)
  IsAt-up c f i (j ∷ above) (e, r) = r

  -- A search ends, keeps the cache in order, and finds what is at the place.
  abbrev pub Leads : Cache → Option (Option ℕ × Cache) → Option Place → Type 0
  Leads c o p =
      (r : Option ℕ) × ((d : Cache) × ((o ≡ some (r, d)) × (Kept fs dirs c d × Found d r p)))

  enter_leaf-Leads :
      (entries : ℕ) (c : Cache) (f i : ℕ) (above : List ℕ) (name : List ℕ)
      → HasListing fs entries dirs
      → IsCache fs dirs c
      → f < c.new
      → IsAt c f i above
      → is_dir fs i ≡ true
      → (same_name dot name || same_name dot_dot name) ≡ false
      → Leads c (enter_leaf fs entries f name c) (leaf_place (i, above) (lookup (dirs i) name))
  unfolding enter_leaf Complete is_cached_leaf IsAt
  enter_leaf-Leads entries c f i above name listed ok h at directory real =
      let e = IsAt-inum c f i above at in
      let (d, (read, t)) =
        get_dir_entries-Taken fs dirs c entries f listed ok h (ap (is_dir fs) e ∙ directory) in
      let kept : Kept fs dirs c d = record { cache = t.cache; extends = t.extends } in
      let answer : enter_leaf fs entries f name c ≡ some (is_cached_leaf d f name, d) =
        ap (λ (o : Option (Bool × Cache)). o >>= (λ r. some (is_cached_leaf (r.1) f name, r.1)))
          read in
      elim (Option-cases (is_cached_leaf d f name)) [
        | inl missing ↦
            let looked = ap (λ j. lookup (dirs j) name) (sym e) ∙ t.complete name real missing in
            (
              none,
              (
                d,
                (
                  answer ∙ ap (λ r. some (r, d)) missing,
                  (kept, subst (λ o. Found d none (leaf_place (i, above) o)) (sym looked) refl),
                ),
              ),
            )
        | inr (l, found) ↦
            let below : f < d.new = omega (arith, h, t.extends.grows) in
            let (leaf, named) =
              find_leaf-All (IsLeaf fs dirs d f (d.files f).inum) d.files (d.files f).leaf name l
                (t.cache f below).leaves found in
            let looked =
              ap₂ (λ j n. lookup (dirs j) n) (sym (t.extends.inum f h ∙ e)) (sym named)
              ∙ leaf.named in
            let at' = IsAt-later c d f i above ok t.extends h at in
            (
              some l,
              (
                d,
                (
                  answer ∙ ap (λ r. some (r, d)) found,
                  (
                    kept,
                    subst (λ o. Found d (some l) (leaf_place (i, above) o)) (sym looked)
                        (
                          l,
                          (
                            refl,
                            (
                              leaf.below,
                              (refl, subst (λ p. IsAt d p i above) (sym leaf.parent) at'),
                            ),
                          ),
                        ),
                  ),
                ),
              ),
            )
      ]

  pub enter_dir-Leads :
      (entries : ℕ) (c : Cache) (f i : ℕ) (above : List ℕ) (name : List ℕ)
      → HasListing fs entries dirs
      → IsCache fs dirs c
      → f < c.new
      → IsAt c f i above
      → Leads c (enter_dir fs entries f name (is_dir fs i, c)) (resolve_name name (i, above))
  unfolding enter_dir resolve_name
  enter_dir-Leads entries c f i above name listed ok h at =
      let kept : Kept fs dirs c c = record { cache = ok; extends = Extends-refl c } in
      elim (Bool-cases (is_dir fs i)) [
        | inr other ↦ rw other (none, (c, (refl, (kept, refl))))
        | inl directory ↦ rw directory (elim (Bool-cases (same_name dot_dot name)) [
          | inl dots ↦ rw dots (
            some (c.files f).parent,
            (
              c,
              (
                refl,
                (kept, ((c.files f).parent, (refl, ((ok f h).parent, IsAt-up c f i above at)))),
              ),
            ),
          )
          | inr not_up ↦ rw not_up (elim (Bool-cases (same_name dot name)) [
            | inl here ↦ rw here (some f, (c, (refl, (kept, (f, (refl, (h, at)))))))
            | inr not_here ↦ rw not_here (
                enter_leaf-Leads entries c f i above name listed ok h at directory
                  (rw (not_here, not_up) refl))
          ])
        ])
      ]
