-- ===== src/Files.antt =====
-- The cache of files and the lookup of paths, kern/file.c and kern/file.h, over a file system. Files
-- are known by their numbers, `new` is the number of the next structure, names are lists of bytes,
-- and the buffer of an open file is a value. All files are on the one disk `hd`. The map gives what a
-- number's memory holds before it is allocated, which fields that are not set keep.
pub mod Components
pub mod Listing
pub mod Extends
pub mod Cached
pub mod Entries
pub mod Directory
pub mod Resolve
pub mod Lookup
pub mod Root
mod Tests
use creeks_old.Base.{
  ℕ, zero, suc, ◌+◌, ◌-◌, ◌/◌, ◌%◌, ◌^◌, Bool, true, false, Option, none, some, List, [], ◌∷◌,
  length, ◌==◌, ◌&&◌, ◌||◌, ltb, if◌then◌else◌, update,
}
use creeks_old.Base.Options.{◌>>=◌}
use creeks_old.Base.Endian.{u16_at, u32_at}
use creeks_old.Libc.{Bytes}
use creeks_old.Disk.{Port}
use creeks_old.Ext2.{Disk, Inode, Copy, ext2_read_inode, ext2_read_file}

-- What kern/file.c uses of kern/ext2.c.
pub record FileSystem : Type 0 where
  pub read_inode : ℕ → Inode
  pub read_file : Inode → Bytes

-- The implementation; the buffer of a file begins at its address 0.
abbrev pub ext2 : Port → Disk → FileSystem
ext2 port hd = record {
  read_inode = ext2_read_inode port hd;
  read_file = λ inode. (ext2_read_file port hd inode 0 (λ i. 0)).memory;
}

-- `struct file`
pub record CachedFile : Type 0 where
  pub inum : ℕ
  pub name : List ℕ
  pub inode : Option Inode
  pub mmap : Option Bytes
  pub opened : ℕ
  pub parent : ℕ
  pub leaf : List ℕ

pub record Cache : Type 0 where
  pub files : ℕ → CachedFile
  pub new : ℕ

-- `struct directory_entry`, with the bytes of the name behind the fields.
pub record DirectoryEntry : Type 0 where
  pub inode : ℕ
  pub rec_len : ℕ
  pub name_len : ℕ
  pub file_type : ℕ
  pub name : Bytes

unfoldable pub directory_entry : Bytes → ℕ → DirectoryEntry
unfolding u32_at u16_at
directory_entry b at = record {
  inode = u32_at b at;
  rec_len = u16_at b (at + 4);
  name_len = b (at + 6);
  file_type = b (at + 7);
  name = λ i. b (at + 8 + i);
}

-- `memcpy` of a name and the zero behind it, as a string: what stands in front of the first zero.
unfoldable pub string_of : (n at : ℕ) → Bytes → List ℕ
string_of zero at b = []
string_of (suc n) at b = let rest = string_of n (at + 1) b in if b at == 0 then [] else b at ∷ rest

-- `strcmp(s1, s2) == 0`
unfoldable pub same_name : List ℕ → List ℕ → Bool
same_name [] [] = true
same_name [] (d ∷ ds) = false
same_name (c ∷ cs) [] = false
same_name (c ∷ cs) (d ∷ ds) = (c == d) && same_name cs ds

abbrev pub dot : List ℕ
dot = 46 ∷ []

abbrev pub dot_dot : List ℕ
dot_dot = 46 ∷ 46 ∷ []

-- A file's structure is changed.
abbrev pub set_file : ℕ → CachedFile → Cache → Cache
set_file fp f c = record c { files = update c.files fp f }

-- A new structure, with its contents.
unfoldable pub new_file : CachedFile → Cache → Cache
new_file f c = record c { files = update c.files c.new f; new = c.new + 1 }

-- The first of the files with the name.
unfoldable pub find_leaf : (ℕ → CachedFile) → List ℕ → List ℕ → Option ℕ
unfolding same_name
find_leaf files [] filename = none
find_leaf files (leaf ∷ leaves) filename =
    let rest = find_leaf files leaves filename in
    if same_name ((files leaf).name) filename then some leaf else rest

unfoldable pub is_cached_leaf : Cache → ℕ → List ℕ → Option ℕ
unfolding find_leaf
is_cached_leaf c dir filename = find_leaf c.files (c.files dir).leaf filename

-- A new structure in front of the directory's leaves.
unfoldable pub add_leaf : (dir inum : ℕ) → List ℕ → Cache → Cache
unfolding new_file
add_leaf dir inum name c =
    let leaf : CachedFile = record {
      inum = inum;
      name = name;
      inode = none;
      mmap = none;
      opened = (c.files c.new).opened;
      parent = dir;
      leaf = [];
    } in
    let added = new_file leaf c in
    let d = added.files dir in set_file dir (record d { leaf = c.new ∷ d.leaf }) added

-- What the loop does with the entry that stands at `at`.
unfoldable pub take_entry : (dir inum : ℕ) → List ℕ → Cache → Cache
unfolding is_cached_leaf add_leaf same_name
take_entry dir inum filename c =
    if same_name dot filename || same_name dot_dot filename
    then c
    else elim (is_cached_leaf c dir filename) [
      | none ↦ add_leaf dir inum filename c
      | some leaf ↦ c
    ]

-- `while (dentry->inode && dsize)`; without fuel left, none.
unfoldable pub read_entries : (fuel dir : ℕ) → Bytes → (dentry dsize : ℕ) → Cache → Option Cache
unfolding directory_entry string_of take_entry
read_entries zero dir b dentry dsize c = none
read_entries (suc fuel) dir b dentry dsize c =
    let e = directory_entry b dentry in
    let taken = take_entry dir e.inode (string_of e.name_len 0 e.name) c in
    let left = (dsize + 2 ^ 32 - e.rec_len) % 2 ^ 32 in
    let rest = read_entries fuel dir b (dentry + e.rec_len) left taken in
    if e.inode == 0 || dsize == 0 then some c else rest

module _ (fs : FileSystem) where
  -- The inode of a file that may not be read so far.
  unfoldable pub inode_now : CachedFile → Inode
  inode_now f = elim f.inode [ none ↦ fs.read_inode f.inum | some i ↦ i ]

  -- `if (!fp->inode) fp->inode = ext2_read_inode(fp->disk, fp->inum);`
  unfoldable pub with_inode : ℕ → Cache → Cache
  unfolding inode_now
  with_inode fp c = let f = c.files fp in set_file fp (record f { inode = some (inode_now f) }) c

  -- `i_mode & EXT2_S_IFDIR`
  unfoldable pub is_directory : ℕ → Cache → Bool × Cache
  unfolding with_inode inode_now
  is_directory fp c = ((inode_now (c.files fp)).i_mode / 2 ^ 14 % 2 == 1, with_inode fp c)

  -- The buffer that the entries are read from: that of an open directory, or a new one.
  unfoldable pub dir_buffer : CachedFile → Bytes
  unfolding inode_now
  dir_buffer f = elim f.mmap [ none ↦ fs.read_file (inode_now f) | some b ↦ b ]

  -- The directory is opened, read and closed again, if it was not open before.
  unfoldable pub read_dir : (fuel dir : ℕ) → Cache → Option Cache
  unfolding dir_buffer read_entries inode_now
  read_dir fuel dir c =
      let f = c.files dir in
      let opened = set_file dir (record f { mmap = some (dir_buffer f) }) c in
      read_entries fuel dir (dir_buffer f) 0 (inode_now f).i_size opened
      >>= (λ d. some (set_file dir (record (d.files dir) { mmap = f.mmap }) d))

  -- What follows the test of `is_directory`; the answer is `true` for 0 and `false` for -1.
  unfoldable pub if_directory : (fuel dir : ℕ) → Bool × Cache → Option (Bool × Cache)
  unfolding read_dir
  if_directory fuel dir (directory, c) =
      let entries = read_dir fuel dir c in
      if directory then (entries >>= (λ d. some (true, d))) else some (false, c)

  unfoldable pub get_dir_entries : (fuel dir : ℕ) → Cache → Option (Bool × Cache)
  unfolding is_directory with_inode if_directory
  get_dir_entries fuel dir c = if_directory fuel dir (is_directory dir (with_inode dir c))

-- `while (*beg_p == '/') beg_p++;` on the rest of the path.
unfoldable pub skip_slashes : List ℕ → List ℕ
skip_slashes [] = []
skip_slashes (c ∷ cs) = let rest = skip_slashes cs in if c == 47 then rest else c ∷ cs

-- The bytes from `end_p` on that belong to the word, and what stands behind them.
unfoldable pub word : List ℕ → List ℕ
word [] = []
word (c ∷ cs) = let rest = word cs in if c == 47 then [] else c ∷ rest

unfoldable pub behind_word : List ℕ → List ℕ
behind_word [] = []
behind_word (c ∷ cs) = let rest = behind_word cs in if c == 47 then c ∷ cs else rest

-- A search that goes on from the file that was found.
abbrev pub go_on :
    (ℕ → Cache → Option (Option ℕ × Cache)) → Option ℕ × Cache → Option (Option ℕ × Cache)
go_on next (none, c) = some (none, c)
go_on next (some fp, c) = next fp c

module _ (fs : FileSystem) (entries : ℕ) where
  -- The leaf with a name, once the entries of its directory are taken.
  unfoldable pub enter_leaf : ℕ → List ℕ → Cache → Option (Option ℕ × Cache)
  unfolding get_dir_entries is_cached_leaf
  enter_leaf fp name c =
      get_dir_entries fs entries fp c >>= (λ r. some (is_cached_leaf (r.1) fp name, r.1))

  -- What follows the test of `is_directory`.
  unfoldable pub enter_dir : ℕ → List ℕ → Bool × Cache → Option (Option ℕ × Cache)
  unfolding enter_leaf same_name
  enter_dir fp name (directory, c) =
      let leaf = enter_leaf fp name c in
      if directory
      then (if same_name dot_dot name
          then some (some (c.files fp).parent, c)
          else (if same_name dot name then some (some fp, c) else leaf))
      else some (none, c)

  -- One name of the path: the file it leads to, if there is one. `entries` is the fuel for the
  -- entries of a directory.
  unfoldable pub enter : ℕ → List ℕ → Cache → Option (Option ℕ × Cache)
  unfolding with_inode is_directory enter_dir
  enter fp name c = enter_dir fp name (is_directory fs fp (with_inode fs fp c))

  -- `while (*beg_p != 0)`; without fuel left, none.
  unfoldable pub walk : (fuel fp : ℕ) → (beg_p : List ℕ) → Cache → Option (Option ℕ × Cache)
  unfolding enter skip_slashes word behind_word
  walk fuel fp [] c = some (some fp, c)
  walk zero fp (b ∷ bs) c = none
  walk (suc fuel) fp (b ∷ bs) c =
      enter fp (b ∷ word bs) c
      >>= go_on (λ next d. walk fuel next (skip_slashes (behind_word bs)) d)

  -- `path[0] != '/'`
  unfoldable pub start : (f_root pwd : ℕ) → List ℕ → ℕ
  start f_root pwd [] = pwd
  start f_root pwd (c ∷ cs) = if c == 47 then f_root else pwd

  unfoldable pub path_to_file : (fuel f_root pwd : ℕ) → List ℕ → Cache → Option (Option ℕ × Cache)
  unfolding walk start skip_slashes
  path_to_file fuel f_root pwd path c = walk fuel (start f_root pwd path) (skip_slashes path) c

-- The structure of the root, whose name is "/".
unfoldable pub init_root : FileSystem → (fuel : ℕ) → Cache → Option (ℕ × Cache)
unfolding get_dir_entries new_file
init_root fs fuel c =
    let root : CachedFile = record {
      inum = 2;
      name = 47 ∷ [];
      inode = some (fs.read_inode 2);
      mmap = none;
      opened = (c.files c.new).opened;
      parent = c.new;
      leaf = [];
    } in
    get_dir_entries fs fuel c.new (new_file root c) >>= (λ r. some (c.new, r.1))
