-- ===== src/Files/Components.antt =====
-- The path that `path_to_file` of kern/file.c walks along, as a list of names.
use creeks_old.Base.{
  ℕ, zero, suc, ◌≤◌, ◌≡◌, ◌∙◌, refl, sym, ap, inl, inr, false, Bool-cases, Option, none, some, List,
  [], ◌∷◌, length, ◌==◌, if◌then◌else◌, arith,
}
use creeks_old.Base.Options.{◌>>=◌}
use creeks_old.Files.{
  Cache, FileSystem, go_on, skip_slashes, word, behind_word, enter, walk, start, path_to_file,
}

-- A byte in front of the first of the names.
abbrev onto : ℕ → List (List ℕ) → List (List ℕ)
onto c [] = (c ∷ []) ∷ []
onto c (n ∷ ns) = (c ∷ n) ∷ ns

-- The path cut at every slash: the name in front of the first slash, and the others.
unfoldable pub cut : List ℕ → List ℕ × List (List ℕ)
cut [] = ([], [])
cut (c ∷ cs) = let rest = cut cs in if c == 47 then ([], rest.0 ∷ rest.1) else (c ∷ rest.0, rest.1)

-- The names that are not empty.
unfoldable pub named : List (List ℕ) → List (List ℕ)
named [] = []
named ([] ∷ ns) = named ns
named ((c ∷ n) ∷ ns) = (c ∷ n) ∷ named ns

-- The names between the slashes of a path.
unfoldable pub components : List ℕ → List (List ℕ)
unfolding cut named
components path = let (first, others) = cut path in named (first ∷ others)

-- The names one after the other, up to the first that leads to no file.
unfoldable pub enter_all :
    FileSystem → (entries fp : ℕ) → List (List ℕ) → Cache → Option (Option ℕ × Cache)
unfolding enter
enter_all fs entries fp [] c = some (some fp, c)
enter_all fs entries fp (n ∷ ns) c =
    enter fs entries fp n c >>= go_on (λ next d. enter_all fs entries next ns d)

word_cut : (cs : List ℕ) → (cut cs).0 ≡ word cs
unfolding cut word
word_cut [] = refl
word_cut (c ∷ cs) = elim (Bool-cases (c == 47)) [
  | inl slash ↦ rw slash refl
  | inr other ↦ rw other (ap (λ w. c ∷ w) (word_cut cs))
]

components-skip_slashes : (cs : List ℕ) → components (skip_slashes cs) ≡ components cs
unfolding components cut named skip_slashes
components-skip_slashes [] = refl
components-skip_slashes (c ∷ cs) = elim (Bool-cases (c == 47)) [
  | inl slash ↦ rw slash (components-skip_slashes cs)
  | inr other ↦ let same : skip_slashes (c ∷ cs) ≡ c ∷ cs = rw other refl in ap components same
]

named-behind_word : (cs : List ℕ) → named ((cut cs).1) ≡ components (behind_word cs)
unfolding components cut named behind_word
named-behind_word [] = refl
named-behind_word (c ∷ cs) = elim (Bool-cases (c == 47)) [
  | inl slash ↦
      let same : behind_word (c ∷ cs) ≡ c ∷ cs = rw slash refl in
      let all : named ((cut (c ∷ cs)).1) ≡ components (c ∷ cs) = rw slash refl in
      all ∙ sym (ap components same)
  | inr other ↦ rw other (named-behind_word cs)
]

-- A path that does not begin with a slash is a word and what is behind it.
components_word :
    (b : ℕ) (bs : List ℕ)
    → (b == 47) ≡ false
    → components (b ∷ bs) ≡ (b ∷ word bs) ∷ components (skip_slashes (behind_word bs))
unfolding components cut named
components_word b bs other = rw other (
    ap (λ w. (b ∷ w) ∷ named ((cut bs).1)) (word_cut bs)
    ∙ ap (λ ns. (b ∷ word bs) ∷ ns)
        (named-behind_word bs ∙ sym (components-skip_slashes (behind_word bs))))

length-skip_slashes : (cs : List ℕ) → length (skip_slashes cs) ≤ length cs
unfolding skip_slashes
length-skip_slashes [] = omega arith
length-skip_slashes (c ∷ cs) = ground (arith, length-skip_slashes cs)

length-behind_word : (cs : List ℕ) → length (behind_word cs) ≤ length cs
unfolding behind_word
length-behind_word [] = omega arith
length-behind_word (c ∷ cs) = ground (arith, length-behind_word cs)

-- What is left of a path begins with no slash.
abbrev pub BeginsWord : List ℕ → Type 0
BeginsWord [] = Unit
BeginsWord (c ∷ cs) = (c == 47) ≡ false

skip_slashes-BeginsWord : (cs : List ℕ) → BeginsWord (skip_slashes cs)
unfolding skip_slashes
skip_slashes-BeginsWord [] = tt
skip_slashes-BeginsWord (c ∷ cs) = elim (Bool-cases (c == 47)) [
  | inl slash ↦ rw slash (skip_slashes-BeginsWord cs)
  | inr other ↦ rw other other
]

-- Two ways to go on from a file that was found.
then_same :
    (r : Option (Option ℕ × Cache)) (f g : ℕ → Cache → Option (Option ℕ × Cache))
    → ((next : ℕ) (d : Cache) → f next d ≡ g next d)
    → (r >>= go_on f) ≡ (r >>= go_on g)
then_same none f g same = refl
then_same (some (none, d)) f g same = refl
then_same (some (some next, d)) f g same = same next d

module _ (fs : FileSystem) (entries : ℕ) where
  walk-enter_all :
      (fuel fp : ℕ) (path : List ℕ) (c : Cache)
      → length path ≤ fuel
      → BeginsWord path
      → walk fs entries fuel fp path c ≡ enter_all fs entries fp (components path) c
  unfolding walk components cut named enter_all
  walk-enter_all fuel fp [] c enough begins = refl
  walk-enter_all zero fp (b ∷ bs) c enough begins = absurd (omega arith)
  walk-enter_all (suc fuel) fp (b ∷ bs) c enough begins =
      let left = skip_slashes (behind_word bs) in
      then_same (enter fs entries fp (b ∷ word bs) c) (λ next d. walk fs entries fuel next left d)
        (λ next d. enter_all fs entries next (components left) d)
        (λ next d.
          walk-enter_all fuel next left d
            (omega (arith, length-skip_slashes (behind_word bs), length-behind_word bs))
            (skip_slashes-BeginsWord (behind_word bs)))
      ∙ ap (λ ns. enter_all fs entries fp ns c) (sym (components_word b bs begins))

-- On every path, path_to_file with one round for each byte of the path does the same as entering the
-- names between the slashes of the path one after the other, from the root when the path
-- begins with a slash and from the current directory when not, up to the first name that leads to no
-- file: slashes at the end and several slashes in a row make no difference. Where reading a directory on
-- the way does not end, neither does.
pub path_to_file-enter_all :
    (fs : FileSystem) (entries f_root pwd : ℕ) (path : List ℕ) (c : Cache)
    → path_to_file fs entries (length path) f_root pwd path c
      ≡ enter_all fs entries (start fs entries f_root pwd path) (components path) c
unfolding path_to_file
path_to_file-enter_all fs entries f_root pwd path c =
    walk-enter_all fs entries (length path) (start fs entries f_root pwd path) (skip_slashes path) c
      (length-skip_slashes path) (skip_slashes-BeginsWord path)
    ∙ ap (λ ns. enter_all fs entries (start fs entries f_root pwd path) ns c)
        (components-skip_slashes path)
