-- ===== src/Files/Listing.antt =====
-- The entries of a directory that `get_dir_entries` of kern/file.c reads, as a list.
use creeks_old.Base.{
  ℕ, zero, suc, ◌+◌, ◌-◌, ◌%◌, ◌^◌, ◌≡◌, ◌∙◌, refl, ap, ap₂, sym, inl, inr, Bool-cases, true, false,
  length, subst, ◌≢◌, ◌<◌, ◌≤◌, ==_of_ne, Option, none, some, List, [], ◌∷◌, ◌++◌, ◌==◌, eq_of_==,
  ==_self, ◌||◌, if◌then◌else◌, arith,
}
use creeks_old.Base.Options.{◌>>=◌}
use creeks_old.Base.Endian.{u16_at, u32_at}
use creeks_old.Libc.{Bytes}
use creeks_old.Files.{Cache, directory_entry, string_of, same_name, take_entry, read_entries}

-- A name and the number of its inode.
abbrev pub Entry : Type 0
Entry = List ℕ × ℕ

-- The entries up to the one without an inode or the end of the directory.
unfoldable pub listing : (fuel : ℕ) → Bytes → (dentry dsize : ℕ) → Option (List Entry)
unfolding directory_entry string_of
listing zero b dentry dsize = none
listing (suc fuel) b dentry dsize =
    let e = directory_entry b dentry in
    let rest = listing fuel b (dentry + e.rec_len) ((dsize + 2 ^ 32 - e.rec_len) % 2 ^ 32) in
    let here : Entry = (string_of e.name_len 0 e.name, e.inode) in
    if e.inode == 0 || dsize == 0 then some [] else (rest >>= (λ l. some (here ∷ l)))

-- The bytes of a name, none of them zero.
unfoldable pub AreBytes : Bytes → (a : ℕ) → List ℕ → Type 0
AreBytes b a [] = Unit
AreBytes b a (c ∷ cs) = ((b a ≡ c) × (c ≢ 0)) × AreBytes b (a + 1) cs

-- At `at` stands the record of an entry, of `rec_len` bytes: the number of its inode, which is not 0,
-- the length of its name and the name.
pub record IsEntry (b : Bytes) (at rec_len : ℕ) (name : List ℕ) (inum : ℕ) : Type 0 where
  pub inode : u32_at b at ≡ inum
  pub used : inum ≢ 0
  pub size : u16_at b (at + 4) ≡ rec_len
  pub name_len : b (at + 6) ≡ length name
  pub bytes : AreBytes b (at + 8) name

-- The records of the entries fill the `left` bytes from `at` on.
unfoldable pub AreEntries : Bytes → (at left : ℕ) → List Entry → Type 0
AreEntries b at left [] = left ≡ 0
AreEntries b at left ((name, inum) ∷ es) =
    (rec_len : ℕ) × (IsEntry b at rec_len name inum
      × ((0 < rec_len) × ((rec_len ≤ left) × AreEntries b (at + rec_len) (left - rec_len) es)))

string_of_lem :
    (cs : List ℕ) (i a : ℕ) (b : Bytes)
    → AreBytes b (a + i) cs
    → string_of (length cs) i (λ j. b (a + j)) ≡ cs
unfolding string_of AreBytes
string_of_lem [] i a b h = refl
string_of_lem (c ∷ cs) i a b ((e, ne), h) =
    let next : a + i + 1 ≡ a + (i + 1) = omega arith in
    let real : (c == 0) ≡ false = ==_of_ne c 0 ne in
    let rest = string_of_lem cs (i + 1) a b (subst (λ x. AreBytes b x cs) next h) in
    rw (e, real, rest) refl

-- Of a directory without unused entries the code's loop reads the entries.
pub listing_lem :
    (fuel : ℕ) (b : Bytes) (at left : ℕ) (es : List Entry)
    → AreEntries b at left es
    → length es < fuel
    → left < 2 ^ 32
    → listing fuel b at left ≡ some es
unfolding listing AreEntries directory_entry
listing_lem zero b at left es h f w = absurd (omega (arith, f))
listing_lem (suc fuel) b at left [] h f w =
    let stop : (u32_at b at == 0 || left == 0) ≡ true = ground (arith, h) in rw stop refl
listing_lem (suc fuel) b at left ((name, inum) ∷ es) (rec_len, (e, (pos, (fits, h)))) f w =
    let go : (u32_at b at == 0 || left == 0) ≡ false = ground (arith, e.inode, e.used, pos, fits) in
    let less : (left + 2 ^ 32 - rec_len) % 2 ^ 32 ≡ left - rec_len = omega (arith, fits, w, pos) in
    let front : at + 8 + 0 ≡ at + 8 = omega arith in
    let named =
      string_of_lem name 0 (at + 8) b (subst (λ x. AreBytes b x name) (sym front) e.bytes) in
    let rest =
      listing_lem fuel b (at + rec_len) (left - rec_len) es h (omega (arith, f))
        (omega (arith, w)) in
    rw (go, e.size, less, e.name_len, named, e.inode, rest) refl

unfoldable pub take_all : (dir : ℕ) → List Entry → Cache → Cache
unfolding take_entry
take_all dir [] c = c
take_all dir (e ∷ es) c = take_all dir es (take_entry dir (e.1) (e.0) c)

-- The inode of the first entry with a name.
unfoldable pub lookup : List Entry → List ℕ → Option ℕ
unfolding same_name
lookup [] n = none
lookup (e ∷ es) n = let rest = lookup es n in if same_name (e.0) n then some (e.1) else rest

then_taken :
    (o : Option (List Entry)) (dir : ℕ) (e : Entry) (c : Cache)
    → (o >>= (λ l. some (take_all dir l (take_entry dir (e.1) (e.0) c))))
      ≡ ((o >>= (λ l. some (e ∷ l))) >>= (λ l. some (take_all dir l c)))
unfolding take_all
then_taken none dir e c = refl
then_taken (some l) dir e c = refl

nothing : (dir : ℕ) (c : Cache) → take_all dir [] c ≡ c
unfolding take_all
nothing dir c = refl

pub read_entries-listing :
    (fuel dir : ℕ) (b : Bytes) (dentry dsize : ℕ) (c : Cache)
    → read_entries fuel dir b dentry dsize c
      ≡ (listing fuel b dentry dsize >>= (λ l. some (take_all dir l c)))
unfolding read_entries listing
read_entries-listing zero dir b dentry dsize c = refl
read_entries-listing (suc fuel) dir b dentry dsize c =
    let e = directory_entry b dentry in
    let name = string_of e.name_len 0 e.name in
    let left = (dsize + 2 ^ 32 - e.rec_len) % 2 ^ 32 in
    elim (Bool-cases (e.inode == 0 || dsize == 0)) [
      | inl end ↦
          rw end (let none_left : take_all dir [] c ≡ c = nothing dir c in ap some (sym none_left))
      | inr more ↦ rw more (
          read_entries-listing fuel dir b (dentry + e.rec_len) left (take_entry dir e.inode name c)
          ∙ then_taken (listing fuel b (dentry + e.rec_len) left) dir (name, e.inode) c)
    ]

pub same_name_lem : (m n : List ℕ) → same_name m n ≡ true → m ≡ n
unfolding same_name
same_name_lem [] [] e = refl
same_name_lem [] (d ∷ ds) e = ground (arith, e)
same_name_lem (c ∷ cs) [] e = ground (arith, e)
same_name_lem (c ∷ cs) (d ∷ ds) e = elim (Bool-cases (c == d)) [
  | inl same ↦ ap₂ (λ x y. x ∷ y) (eq_of_== c d same) (same_name_lem cs ds (rw same at (e)))
  | inr other ↦ let no = rw other at (e) in ground (arith, no)
]

pub same_name_self : (n : List ℕ) → same_name n n ≡ true
unfolding same_name
same_name_self [] = refl
same_name_self (c ∷ cs) = rw (==_self c, same_name_self cs) refl

pub lookup-append :
    (p q : List Entry) (n : List ℕ) → lookup p n ≡ none → lookup (p ++ q) n ≡ lookup q n
unfolding lookup
lookup-append [] q n e = refl
lookup-append (x ∷ p) q n e = elim (Bool-cases (same_name (x.0) n)) [
  | inl same ↦ let no = rw same at (e) in ground (arith, no)
  | inr other ↦ rw other (lookup-append p q n (rw other at (e)))
]
