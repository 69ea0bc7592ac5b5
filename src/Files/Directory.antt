-- ===== src/Files/Directory.antt =====
-- `get_dir_entries` of kern/file.c as a whole: the directory is opened, its entries are taken, and it
-- is closed again.
use creeks_old.Base.{
  at_update, ℕ, ◌/◌, ◌%◌, ◌^◌, ◌<◌, ◌≡◌, ◌∙◌, ◌⊎◌, refl, sym, ap, ap₂, subst, inl, inr, length, ◌≤◌,
  Bool, true, Option, none, some, List, [], ◌∷◌, ◌==◌, ==_self, arith,
}
use creeks_old.Base.Options.{◌>>=◌}
use creeks_old.Libc.{Bytes}
use creeks_old.Ext2.{Inode}
use creeks_old.Files.{
  FileSystem, CachedFile, Cache, set_file, find_leaf, is_cached_leaf, inode_now, with_inode,
  is_directory, dir_buffer, read_dir, if_directory, get_dir_entries,
}
use creeks_old.Files.Listing.{
  Entry, AreEntries, listing, listing_lem, lookup, take_all, read_entries-listing,
}
use creeks_old.Files.Extends.{Extends, Extends-trans, IsSame, set_file-Extends}
use creeks_old.Files.Cached.{IsCache, IsFile, inode_now_lem, dir_buffer_lem, set_file-IsCache}
use creeks_old.Files.Entries.{Complete, Taken, take_all-Taken}

-- The format of an inode, `i_mode & EXT2_S_IFMT`, and whether it is a directory's.
abbrev pub format : FileSystem → ℕ → ℕ
format fs inum = (fs.read_inode inum).i_mode / 2 ^ 12 % 16

abbrev pub is_dir : FileSystem → ℕ → Bool
is_dir fs inum = format fs inum == 4

-- The disk has no sockets and no block devices, whose formats have the bit of a directory's.
abbrev pub IsPlain : FileSystem → Type 0
IsPlain fs =
    (inum : ℕ)
    → (format fs inum ≡ 4) ⊎ ((format fs inum < 4) ⊎ ((8 ≤ format fs inum) × (format fs inum < 12)))

directory_bit :
    (fs : FileSystem) (inum : ℕ)
    → IsPlain fs
    → ((fs.read_inode inum).i_mode / 2 ^ 14 % 2 == 1) ≡ is_dir fs inum
directory_bit fs inum plain = elim (plain inum) [
  | inl directory ↦ ground (arith, directory)
  | inr (inl low) ↦ ground (arith, low)
  | inr (inr (from, below)) ↦ ground (arith, from, below)
]

-- The directories on the disk hold the entries `dirs` and no unused ones, and `fuel` is more than
-- each has.
abbrev pub HasListing : FileSystem → (fuel : ℕ) → (ℕ → List Entry) → Type 0
HasListing fs fuel dirs =
    IsPlain fs
    × ((inum : ℕ)
        → is_dir fs inum ≡ true
        → AreEntries (fs.read_file (fs.read_inode inum)) 0 (fs.read_inode inum).i_size (dirs inum)
          × ((length (dirs inum) < fuel) × ((fs.read_inode inum).i_size < 2 ^ 32)))

pub HasListing-listing :
    (fs : FileSystem) (fuel : ℕ) (dirs : ℕ → List Entry)
    → HasListing fs fuel dirs
    → (inum : ℕ) → is_dir fs inum ≡ true
    → listing fuel (fs.read_file (fs.read_inode inum)) 0 (fs.read_inode inum).i_size
      ≡ some (dirs inum)
HasListing-listing fs fuel dirs (plain, listed) inum directory =
    let (entries, (enough, size)) = listed inum directory in
    listing_lem fuel _ 0 _ (dirs inum) entries enough size

find_leaf-names :
    (files files' : ℕ → CachedFile) (leaves : List ℕ) (n : List ℕ)
    → ((l : ℕ) → (files' l).name ≡ (files l).name)
    → find_leaf files' leaves n ≡ find_leaf files leaves n
unfolding find_leaf
find_leaf-names files files' [] n same = refl
find_leaf-names files files' (l ∷ leaves) n same =
    rw (same l, find_leaf-names files files' leaves n same) refl

module _ (fs : FileSystem) (dirs : ℕ → List Entry) where
  -- A change of a file that keeps the cache in order.
  pub record Kept (c d : Cache) : Type 0 where
    pub cache : IsCache fs dirs d
    pub extends : Extends c d

  pub Kept-trans : (c d e : Cache) → Kept c d → Kept d e → Kept c e
  Kept-trans c d e x y = record {
    cache = y.cache;
    extends = Extends-trans c d e x.extends y.extends;
  }

  set_file-Kept :
      (c : Cache) (fp : ℕ) (file : CachedFile)
      → IsSame (c.files fp) file
      → IsCache fs dirs c
      → IsFile fs dirs c fp file
      → Kept c (set_file fp file c)
  set_file-Kept c fp file same ok new = record {
    cache = set_file-IsCache fs dirs c fp file same ok new;
    extends = set_file-Extends c fp file same;
  }

  pub with_inode-Kept :
      (c : Cache) (fp : ℕ) → IsCache fs dirs c → fp < c.new → Kept c (with_inode fs fp c)
  unfolding with_inode
  with_inode-Kept c fp ok h =
      let f = ok fp h in
      set_file-Kept c fp _ (record { inum = refl; name = refl; parent = refl }) ok
        (record {
          leaves = f.leaves;
          parent = f.parent;
          inode = inr (ap some (inode_now_lem fs dirs c fp (c.files fp) f));
          mmap = f.mmap;
        })

  pub is_directory_lem :
      (c : Cache) (fp : ℕ)
      → IsPlain fs
      → IsCache fs dirs c
      → fp < c.new
      → is_directory fs fp c ≡ (is_dir fs (c.files fp).inum, with_inode fs fp c)
  unfolding is_directory
  is_directory_lem c fp plain ok h =
      ap (λ (i : Inode). (i.i_mode / 2 ^ 14 % 2 == 1, with_inode fs fp c))
        (inode_now_lem fs dirs c fp (c.files fp) (ok fp h))
      ∙ ap (λ b. (b, with_inode fs fp c)) (directory_bit fs (c.files fp).inum plain)

  -- The changes before the entries are read.
  abbrev pub before : ℕ → Cache → Cache
  before dir c = with_inode fs dir (with_inode fs dir c)

  pub before-Kept : (c : Cache) (dir : ℕ) → IsCache fs dirs c → dir < c.new → Kept c (before dir c)
  before-Kept c dir ok h =
      let a = with_inode-Kept c dir ok h in
      Kept-trans c _ _ a
        (with_inode-Kept (with_inode fs dir c) dir a.cache (omega (arith, h, a.extends.grows)))

  abbrev open_dir : ℕ → Cache → Cache
  open_dir dir c =
      set_file dir (record (c.files dir) { mmap = some (dir_buffer fs (c.files dir)) }) c

  open_dir-Kept : (c : Cache) (dir : ℕ) → IsCache fs dirs c → dir < c.new → Kept c (open_dir dir c)
  open_dir-Kept c dir ok h =
      let f = ok dir h in
      set_file-Kept c dir _ (record { inum = refl; name = refl; parent = refl }) ok
        (record {
          leaves = f.leaves;
          parent = f.parent;
          inode = f.inode;
          mmap = inr (ap some (dir_buffer_lem fs dirs c dir (c.files dir) f));
        })

  abbrev close_dir : ℕ → Option Bytes → Cache → Cache
  close_dir dir mmap d = set_file dir (record (d.files dir) { mmap = mmap }) d

  close_dir-Taken :
      (c d : Cache) (dir : ℕ) (p : List Entry) (mmap : Option Bytes)
      → dir < d.new
      → (mmap ≡ none) ⊎ (mmap ≡ some (fs.read_file (fs.read_inode (d.files dir).inum)))
      → Taken fs dirs c d dir p
      → Taken fs dirs c (close_dir dir mmap d) dir p
  unfolding Complete is_cached_leaf
  close_dir-Taken c d dir p mmap h m t =
      let f = t.cache dir h in
      let kept =
        set_file-Kept d dir (record (d.files dir) { mmap = mmap })
          (record { inum = refl; name = refl; parent = refl }) t.cache
          (record { leaves = f.leaves; parent = f.parent; inode = f.inode; mmap = m }) in
      let closed = close_dir dir mmap d in
      let leaves : (closed.files dir).leaf ≡ (d.files dir).leaf = rw (==_self dir) refl in
      let names = find_leaf-names d.files closed.files (d.files dir).leaf in
      record {
        cache = kept.cache;
        extends = Extends-trans c d closed t.extends kept.extends;
        complete = λ n real no. t.complete n real (
            sym (
              ap (λ ls. find_leaf closed.files ls n) leaves
              ∙ names n (λ l.
                at_update (λ x v. v.name ≡ (d.files x).name) d.files dir _ refl l (λ ne. refl)))
            ∙ no);
      }

  read_dir-Taken :
      (c : Cache) (fuel dir : ℕ)
      → HasListing fs fuel dirs
      → IsCache fs dirs c
      → dir < c.new
      → is_dir fs (c.files dir).inum ≡ true
      → (d : Cache) × ((read_dir fs fuel dir c ≡ some d)
          × Taken fs dirs c d dir (dirs (c.files dir).inum))
  unfolding read_dir Complete lookup
  read_dir-Taken c fuel dir listed ok h directory =
      let f = ok dir h in
      let opened = open_dir dir c in
      let kept = open_dir-Kept c dir ok h in
      let inum = (c.files dir).inum in
      let same = kept.extends.inum dir h in
      let all =
        take_all-Taken fs dirs (dirs (opened.files dir).inum) opened dir [] h kept.cache
          (λ n real no. refl) refl in
      let d = take_all dir (dirs (opened.files dir).inum) opened in
      let listed' =
        ap₂ (λ b (i : Inode). listing fuel b 0 i.i_size)
          (dir_buffer_lem fs dirs c dir (c.files dir) f)
          (inode_now_lem fs dirs c dir (c.files dir) f)
        ∙ (HasListing-listing fs fuel dirs listed inum directory
            ∙ ap (λ i. some (dirs i)) (sym same)) in
      let read =
        read_entries-listing fuel dir (dir_buffer fs (c.files dir)) 0
          (inode_now fs (c.files dir)).i_size opened
        ∙ ap (λ (o : Option (List Entry)). o >>= (λ l. some (take_all dir l opened))) listed' in
      (
        close_dir dir (c.files dir).mmap d,
        (
          ap (λ (o : Option Cache). o >>= (λ d. some (close_dir dir (c.files dir).mmap d))) read,
          close_dir-Taken c d dir (dirs inum) (c.files dir).mmap
              (omega (arith, h, kept.extends.grows, all.extends.grows))
              (subst
                (λ i.
                  ((c.files dir).mmap ≡ none)
                  ⊎ ((c.files dir).mmap ≡ some (fs.read_file (fs.read_inode i))))
                (sym (all.extends.inum dir h ∙ same)) f.mmap)
              (record {
                cache = all.cache;
                extends = Extends-trans c opened d kept.extends all.extends;
                complete = subst (λ i. Complete d dir (dirs i)) same all.complete;
              }),
        ),
      )

  -- The test of a file whose inode was read before.
  pub tested :
      (c : Cache) (dir : ℕ)
      → IsPlain fs
      → IsCache fs dirs c
      → dir < c.new
      → is_directory fs dir (with_inode fs dir c) ≡ (is_dir fs (c.files dir).inum, before dir c)
  tested c dir plain ok h =
      let kept = with_inode-Kept c dir ok h in
      is_directory_lem (with_inode fs dir c) dir plain kept.cache
        (omega (arith, h, kept.extends.grows))
      ∙ ap (λ i. (is_dir fs i, before dir c)) (kept.extends.inum dir h)

  Taken-after :
      (b c d : Cache) (dir : ℕ) (p : List Entry)
      → Extends b c
      → Taken fs dirs c d dir p
      → Taken fs dirs b d dir p
  Taken-after b c d dir p x t = record {
    cache = t.cache;
    extends = Extends-trans b c d x t.extends;
    complete = t.complete;
  }

  -- On a disk without sockets and block devices, whose directories have no unused entries and whose
  -- records tile their sizes, get_dir_entries of a directory, with more fuel than it has entries,
  -- succeeds on every cache that is in order, keeps it in order and keeps the files that it has, and then every name among the
  -- directory's entries other than "." and ".." has a leaf, which is the file of the first entry with
  -- the name.
  pub get_dir_entries-Taken :
      (c : Cache) (fuel dir : ℕ)
      → HasListing fs fuel dirs
      → IsCache fs dirs c
      → dir < c.new
      → is_dir fs (c.files dir).inum ≡ true
      → (d : Cache) × ((get_dir_entries fs fuel dir c ≡ some (true, d))
          × Taken fs dirs c d dir (dirs (c.files dir).inum))
  unfolding get_dir_entries if_directory
  get_dir_entries-Taken c fuel dir listed ok h directory =
      let c' = before dir c in
      let kept = before-Kept c dir ok h in
      let same = kept.extends.inum dir h in
      let (d, (read, t)) =
        read_dir-Taken c' fuel dir listed kept.cache (omega (arith, h, kept.extends.grows))
          (ap (is_dir fs) same ∙ directory) in
      let is_true = tested c dir listed.0 ok h ∙ ap (λ b. (b, c')) directory in
      (
        d,
        (
          ap (if_directory fs fuel dir) is_true
              ∙ ap (λ (o : Option Cache). o >>= (λ d. some (true, d))) read,
          subst (λ i. Taken fs dirs c d dir (dirs i)) same
              (Taken-after c c' d dir _ kept.extends t),
        ),
      )
