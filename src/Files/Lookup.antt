-- ===== src/Files/Lookup.antt =====
-- `path_to_file` of kern/file.c against the directories on the disk, for a whole path.
use creeks_old.Base.{
  ℕ, ◌<◌, ◌∙◌, refl, sym, ap, subst, inl, inr, Bool-cases, Option, none, some, List, [], ◌∷◌,
  length, ◌==◌, if◌then◌else◌, arith,
}
use creeks_old.Base.Options.{◌>>=◌}
use creeks_old.Files.{FileSystem, Cache, go_on, enter_dir, enter, start, path_to_file}
use creeks_old.Files.Components.{components, enter_all, path_to_file-enter_all}
use creeks_old.Files.Listing.{Entry}
use creeks_old.Files.Extends.{Extends-refl}
use creeks_old.Files.Cached.{IsCache}
use creeks_old.Files.Directory.{is_dir, HasListing, Kept, Kept-trans, before, before-Kept, tested}
use creeks_old.Files.Resolve.{
  Place, resolve_name, resolve, IsAt, IsAt-inum, IsAt-later, Found, Leads, enter_dir-Leads,
}

-- Where a path begins.
abbrev pub start_place : (root pwd : Place) → List ℕ → Place
start_place root pwd [] = pwd
start_place root pwd (c ∷ cs) = if c == 47 then root else pwd

module _ (fs : FileSystem) (dirs : ℕ → List Entry) (entries : ℕ)
    (listed : HasListing fs entries dirs) where
  -- What is proved of the file at a place.
  abbrev FromPlace : (ℕ → Cache → Option (Option ℕ × Cache)) → (Place → Option Place) → Type 0
  FromPlace search place =
      (c : Cache) (f i : ℕ) (above : List ℕ)
      → IsCache fs dirs c
      → f < c.new
      → IsAt fs dirs c f i above
      → Leads fs dirs c (search f c) (place (i, above))

  enter-Leads :
      (name : List ℕ) → FromPlace (λ f c. enter fs entries f name c) (resolve_name fs dirs name)
  unfolding enter
  enter-Leads name c f i above ok h at =
      let kept = before-Kept fs dirs c f ok h in
      let c' = before fs dirs f c in
      let same = ap (enter_dir fs entries f name) (
        tested fs dirs c f listed.0 ok h
        ∙ ap (λ j. (is_dir fs j, c')) (IsAt-inum fs dirs c f i above at)) in
      let (r, (d, (e, (k, found)))) =
        enter_dir-Leads fs dirs entries c' f i above name listed kept.cache
          (omega (arith, h, kept.extends.grows))
          (IsAt-later fs dirs c c' f i above ok kept.extends h at) in
      (r, (d, (same ∙ e, (Kept-trans fs dirs c c' d kept k, found))))

  next-Leads :
      (search : ℕ → Cache → Option (Option ℕ × Cache)) (place : Place → Option Place)
      → FromPlace search place
      → (c d : Cache) (r : Option ℕ) (o : Option Place) → Kept fs dirs c d
      → Found fs dirs d r o
      → Leads fs dirs c (go_on search (r, d)) (o >>= place)
  next-Leads search place later c d r none kept found = rw found (none, (d, (refl, (kept, refl))))
  next-Leads search place later c d r (some (i, above)) kept (f, (e, (h, at))) =
      let (r', (d', (e', (k, found)))) = later d f i above kept.cache h at in
      rw e (r', (d', (e', (Kept-trans fs dirs c d d' kept k, found))))

  enter_all-Leads :
      (names : List (List ℕ))
      → FromPlace (λ f c. enter_all fs entries f names c) (resolve fs dirs names)
  unfolding enter_all resolve
  enter_all-Leads [] c f i above ok h at =
      (some f, (c, (refl, (record { cache = ok; extends = Extends-refl c }, (f, (refl, (h, at)))))))
  enter_all-Leads (n ∷ ns) c f i above ok h at =
      let (r, (d, (e, (kept, found)))) = enter-Leads n c f i above ok h at in
      let (r', (d', (e', k))) =
        next-Leads (λ f c. enter_all fs entries f ns c) (resolve fs dirs ns) (enter_all-Leads ns) c
          d r (resolve_name fs dirs n (i, above)) kept found in
      (
        r',
        (
          d',
          (
            ap (λ (o : Option (Option ℕ × Cache)). o >>= go_on (λ f c. enter_all fs entries f ns c))
                  e
                ∙ e',
            k,
          ),
        ),
      )

  begin-Leads :
      (c : Cache) (f_root pwd root i : ℕ) (above : List ℕ) (path : List ℕ) (names : List (List ℕ))
      → IsCache fs dirs c
      → f_root < c.new
      → pwd < c.new
      → IsAt fs dirs c f_root root []
      → IsAt fs dirs c pwd i above
      → Leads fs dirs c
          (enter_all fs entries (start fs entries f_root pwd path) names c)
          (resolve fs dirs names (start_place (root, []) (i, above) path))
  unfolding start
  begin-Leads c f_root pwd root i above [] names ok h h' at at' =
      enter_all-Leads names c pwd i above ok h' at'
  begin-Leads c f_root pwd root i above (b ∷ bs) names ok h h' at at' =
      elim (Bool-cases (b == 47)) [
        | inl slash ↦ rw slash (enter_all-Leads names c f_root root [] ok h at)
        | inr other ↦ rw other (enter_all-Leads names c pwd i above ok h' at')
      ]

  -- For every path, on a disk without sockets and block devices whose directories have no unused
  -- entries, and from a cache that is in order against these directories, path_to_file ends, and answers with the file that stands where the names of the path lead on the disk: from the
  -- root or the current directory, each name is looked up among the entries of the directory, ".."
  -- leads to the directory above and "." to the same one, and there is no answer exactly when a name
  -- is missing or is looked up in what is no directory. The cache stays in order and keeps its files.
  pub path_to_file-resolve :
      (c : Cache) (f_root pwd root i : ℕ) (above : List ℕ) (path : List ℕ)
      → IsCache fs dirs c
      → f_root < c.new
      → pwd < c.new
      → IsAt fs dirs c f_root root []
      → IsAt fs dirs c pwd i above
      → Leads fs dirs c
          (path_to_file fs entries (length path) f_root pwd path c)
          (resolve fs dirs (components path) (start_place (root, []) (i, above) path))
  path_to_file-resolve c f_root pwd root i above path ok h h' at at' =
      subst
        (λ o.
          Leads fs dirs c o
            (resolve fs dirs (components path) (start_place (root, []) (i, above) path)))
        (sym (path_to_file-enter_all fs entries f_root pwd path c))
        (begin-Leads c f_root pwd root i above path (components path) ok h h' at at')
