-- ===== src/Files/Tests.antt =====
-- Witnesses for kern/file.c, on a disk where each directory holds one directory of the name "a".
use creeks_old.Base.{
  ℕ, ◌<◌, ◌≡◌, refl, inl, true, none, some, List, [], ◌∷◌, ◌==◌, if◌then◌else◌, arith,
}
use creeks_old.Libc.{Bytes}
use creeks_old.Ext2.{inode_of}
use creeks_old.Files.{
  FileSystem, CachedFile, Cache, start, path_to_file, get_dir_entries, init_root,
}
use creeks_old.Base.Endian.{u16_at, u32_at}
use creeks_old.Files.Listing.{Entry, AreBytes, AreEntries}
use creeks_old.Files.Cached.{IsCache}
use creeks_old.Files.Entries.{Complete, Taken}
use creeks_old.Files.Directory.{HasListing, get_dir_entries-Taken}
use creeks_old.Files.Components.{components, enter_all, path_to_file-enter_all}
use creeks_old.Files.Resolve.{IsAt, resolve, Leads}
use creeks_old.Files.Lookup.{path_to_file-resolve}
use creeks_old.Files.Root.{init_root-IsAt}

-- One entry of twelve bytes for the inode 5 with a name of one byte.
abbrev entry_a : Bytes
entry_a i =
    if i == 0
    then 5
    else (if i == 4 then 12 else (if i == 6 then 1 else (if i == 8 then 97 else 0)))

abbrev nested : FileSystem
nested = record {
  read_inode = λ n. record (inode_of (λ i. 0)) { i_mode = 0x41ED; i_size = 12 };
  read_file = λ inode. entry_a;
}

abbrev nested_dirs : ℕ → List Entry
nested_dirs inum = (97 ∷ [], 5) ∷ []

nested-HasListing : HasListing nested 2 nested_dirs
unfolding AreEntries AreBytes u32_at u16_at
nested-HasListing = (
  λ inum. inl refl,
  λ inum directory. (
    (
      12,
      (
        record {
          inode = refl;
          used = λ e. omega (arith, e);
          size = refl;
          name_len = refl;
          bytes = ((refl, λ e. omega (arith, e)), tt);
        },
        (omega arith, (omega arith, refl)),
      ),
    ),
    (omega arith, omega arith),
  ),
)

abbrev root_file : CachedFile
root_file = record {
  inum = 2;
  name = 47 ∷ [];
  inode = none;
  mmap = none;
  opened = 0;
  parent = 0;
  leaf = [];
}

abbrev root_cache : Cache
root_cache = record { files = λ f. root_file; new = 1 }

root_cache-IsCache : IsCache nested nested_dirs root_cache
root_cache-IsCache f h = record {
  leaves = tt;
  parent = omega arith;
  inode = inl refl;
  mmap = inl refl;
}

root_cache-IsAt : IsAt nested nested_dirs root_cache 0 2 []
unfolding IsAt
root_cache-IsAt = (refl, refl)

abbrev some_path : List ℕ
some_path = 47 ∷ 97 ∷ 47 ∷ 47 ∷ 97 ∷ 47 ∷ 46 ∷ 46 ∷ []

path_to_file-enter_all_example :
    path_to_file nested 2 8 0 0 some_path root_cache
    ≡ enter_all nested 2 0 ((97 ∷ []) ∷ (97 ∷ []) ∷ (46 ∷ 46 ∷ []) ∷ []) root_cache
unfolding start components
path_to_file-enter_all_example = path_to_file-enter_all nested 2 0 0 some_path root_cache

path_to_file-resolve_example :
    Leads nested nested_dirs root_cache
      (path_to_file nested 2 8 0 0 some_path root_cache)
      (some (5, 2 ∷ []))
unfolding resolve components
path_to_file-resolve_example =
    path_to_file-resolve nested nested_dirs 2 nested-HasListing root_cache 0 0 2 2 [] some_path
      root_cache-IsCache (omega arith) (omega arith) root_cache-IsAt root_cache-IsAt

get_dir_entries-Taken_example :
    (d : Cache) × ((get_dir_entries nested 2 0 root_cache ≡ some (true, d))
      × Taken nested nested_dirs root_cache d 0 ((97 ∷ [], 5) ∷ []))
get_dir_entries-Taken_example =
    get_dir_entries-Taken nested nested_dirs root_cache 2 0 nested-HasListing root_cache-IsCache
      (omega arith) refl

init_root-IsAt_example :
    (d : Cache) × ((init_root nested 2 root_cache ≡ some (1, d))
      × (IsCache nested nested_dirs d
          × ((1 < d.new) × (IsAt nested nested_dirs d 1 2 [] × Complete d 1 ((97 ∷ [], 5) ∷ [])))))
init_root-IsAt_example =
    init_root-IsAt nested nested_dirs 2 nested-HasListing refl root_cache root_cache-IsCache
