-- ===== src/Files/Entries.antt =====
-- What `get_dir_entries` of kern/file.c leaves in the cache of files.
use creeks_old.Base.{
  All-map, ℕ, ◌<◌, ◌≡◌, ◌≢◌, ◌∙◌, refl, sym, ap, subst, inl, inr, Bool, Bool-cases, Option-cases,
  false, none, some, List, [], ◌∷◌, ◌++◌, append_assoc, append-nil, All, ◌||◌, if◌then◌else◌, arith,
}
use creeks_old.Files.{
  FileSystem, CachedFile, Cache, add_leaf, same_name, dot, dot_dot, find_leaf, is_cached_leaf,
  take_entry,
}
use creeks_old.Files.Listing.{Entry, lookup, take_all, lookup-append, same_name_lem, same_name_self}
use creeks_old.Files.Extends.{
  Extends, Extends-refl, Extends-trans, add_leaf-Extends, leaves_add_leaf, name_add_leaf,
}
use creeks_old.Files.Cached.{IsCache, IsLeaf, add_leaf-IsCache}

abbrev pub is_dots : List ℕ → Bool
is_dots n = same_name dot n || same_name dot_dot n

-- A leaf that is found is one of the leaves, under the name.
pub find_leaf-All :
    (P : ℕ → Type 0) (files : ℕ → CachedFile) (leaves : List ℕ) (n : List ℕ) (l : ℕ)
    → All P leaves
    → find_leaf files leaves n ≡ some l
    → P l × ((files l).name ≡ n)
unfolding find_leaf
find_leaf-All P files [] n l all e = ground (arith, e)
find_leaf-All P files (x ∷ leaves) n l (p, ps) e =
    elim (Bool-cases (same_name ((files x).name) n)) [
      | inl same ↦
          let at : x ≡ l = ground (arith, rw same at (e)) in
          (subst P at p, subst (λ l. (files l).name ≡ n) at (same_name_lem _ n same))
      | inr other ↦ find_leaf-All P files leaves n l ps (rw other at (e))
    ]

-- The search does not depend on files that are added later.
find_leaf-Extends :
    (c d : Cache) (leaves : List ℕ) (n : List ℕ)
    → Extends c d
    → All (λ l. l < c.new) leaves
    → find_leaf d.files leaves n ≡ find_leaf c.files leaves n
unfolding find_leaf
find_leaf-Extends c d [] n x all = refl
find_leaf-Extends c d (l ∷ leaves) n x (h, hs) =
    rw (x.name l h, find_leaf-Extends c d leaves n x hs) refl

-- A new leaf is found under its name, and the others under theirs.
is_cached_leaf-add_leaf :
    (c : Cache) (dir inum : ℕ) (name n : List ℕ)
    → dir < c.new
    → All (λ l. l < c.new) (c.files dir).leaf
    → is_cached_leaf (add_leaf dir inum name c) dir n
      ≡ (if same_name name n then some c.new else is_cached_leaf c dir n)
unfolding is_cached_leaf find_leaf
is_cached_leaf-add_leaf c dir inum name n h below =
    let d = add_leaf dir inum name c in
    rw (leaves_add_leaf c dir inum name h, name_add_leaf c dir inum name h)
      (rw (find_leaf-Extends c d (c.files dir).leaf n (add_leaf-Extends c dir inum name) below)
        refl)

-- No entry of the list has a name that the directory's leaves lack.
unfoldable pub Complete : Cache → ℕ → List Entry → Type 0
Complete c dir p =
    (n : List ℕ) → is_dots n ≡ false → is_cached_leaf c dir n ≡ none → lookup p n ≡ none

lookup_last :
    (p : List Entry) (name n : List ℕ) (inum : ℕ)
    → lookup p n ≡ none
    → same_name name n ≡ false
    → lookup (p ++ ((name, inum) ∷ [])) n ≡ none
unfolding lookup
lookup_last p name n inum e other = lookup-append p ((name, inum) ∷ []) n e ∙ rw other refl

differ : {A : Type 0} (f : List ℕ → A) (name n : List ℕ) → f name ≢ f n → same_name name n ≡ false
differ f name n apart = elim (Bool-cases (same_name name n)) [
  | inl same ↦ absurd (apart (ap f (same_name_lem name n same)))
  | inr other ↦ other
]

module _ (fs : FileSystem) (dirs : ℕ → List Entry) where
  -- The cache after a part of the directory's entries is taken.
  pub record Taken (c d : Cache) (dir : ℕ) (p : List Entry) : Type 0 where
    pub cache : IsCache fs dirs d
    pub extends : Extends c d
    pub complete : Complete d dir p

  below_of : (c : Cache) (f inum l : ℕ) → IsLeaf fs dirs c f inum l → l < c.new
  below_of c f inum l leaf = leaf.below

  add_leaf-Taken :
      (c : Cache) (dir inum : ℕ) (name : List ℕ) (p r : List Entry)
      → dir < c.new
      → IsCache fs dirs c
      → Complete c dir p
      → dirs (c.files dir).inum ≡ p ++ ((name, inum) ∷ r)
      → is_dots name ≡ false
      → is_cached_leaf c dir name ≡ none
      → Taken c (add_leaf dir inum name c) dir (p ++ ((name, inum) ∷ []))
  unfolding Complete lookup
  add_leaf-Taken c dir inum name p r h ok complete full real_name missing =
      let first : lookup ((name, inum) ∷ r) name ≡ some inum = rw (same_name_self name) refl in
      let entry =
        ap (λ l. lookup l name) full
        ∙ (lookup-append p ((name, inum) ∷ r) name (complete name real_name missing) ∙ first) in
      let below =
        All-map (IsLeaf fs dirs c dir (c.files dir).inum) (λ l. l < c.new) (c.files dir).leaf
          (below_of c dir (c.files dir).inum) (ok dir h).leaves in
      record {
        cache = add_leaf-IsCache fs dirs c dir inum name h ok entry;
        extends = add_leaf-Extends c dir inum name;
        complete = λ n real no.
            let e = sym (is_cached_leaf-add_leaf c dir inum name n h below) ∙ no in
            elim (Bool-cases (same_name name n)) [
              | inl same ↦ let bad = rw same at (e) in ground (arith, bad)
              | inr other ↦ lookup_last p name n inum (complete n real (rw other at (e))) other
            ];
      }

  take_entry-Taken :
      (c : Cache) (dir inum : ℕ) (name : List ℕ) (p r : List Entry)
      → dir < c.new
      → IsCache fs dirs c
      → Complete c dir p
      → dirs (c.files dir).inum ≡ p ++ ((name, inum) ∷ r)
      → Taken c (take_entry dir inum name c) dir (p ++ ((name, inum) ∷ []))
  unfolding take_entry Complete
  take_entry-Taken c dir inum name p r h ok complete full = elim (Bool-cases (is_dots name)) [
    | inl dots ↦ rw dots (record {
      cache = ok;
      extends = Extends-refl c;
      complete = λ n real no.
          lookup_last p name n inum (complete n real no)
            (differ is_dots name n (λ e. ground (arith, sym dots ∙ (e ∙ real))));
    })
    | inr real_name ↦ rw real_name (elim (Option-cases (is_cached_leaf c dir name)) [
      | inl missing ↦
          rw missing (add_leaf-Taken c dir inum name p r h ok complete full real_name missing)
      | inr (l, found) ↦ rw found (record {
        cache = ok;
        extends = Extends-refl c;
        complete = λ n real no. lookup_last p name n inum (complete n real no) (
            differ (λ x. is_cached_leaf c dir x) name n
              (λ e. ground (arith, sym found ∙ (e ∙ no))));
      })
    ])
  ]

  pub take_all-Taken :
      (es : List Entry) (c : Cache) (dir : ℕ) (p : List Entry)
      → dir < c.new
      → IsCache fs dirs c
      → Complete c dir p
      → dirs (c.files dir).inum ≡ p ++ es
      → Taken c (take_all dir es c) dir (dirs (c.files dir).inum)
  unfolding take_all
  take_all-Taken [] c dir p h ok complete full = record {
    cache = ok;
    extends = Extends-refl c;
    complete = subst (Complete c dir) (sym (full ∙ append-nil p)) complete;
  }
  take_all-Taken (e ∷ es) c dir p h ok complete full =
      let d = take_entry dir (e.1) (e.0) c in
      let step = take_entry-Taken c dir (e.1) (e.0) p es h ok complete full in
      let same = step.extends.inum dir h in
      let all =
        take_all-Taken es d dir (p ++ (e ∷ [])) (omega (arith, h, step.extends.grows)) step.cache
          step.complete (ap dirs same ∙ (full ∙ sym (append_assoc p (e ∷ []) es))) in
      record {
        cache = all.cache;
        extends = Extends-trans c d _ step.extends all.extends;
        complete = subst (λ i. Complete (take_all dir es d) dir (dirs i)) same all.complete;
      }
