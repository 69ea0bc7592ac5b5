-- ===== src/Exec/Tests.antt =====
-- A witness for sys_exec, on a disk of one inode, a directory that names itself "a".
use creeks_old.Base.{
  ℕ, ◌-◌, ◌%◌, ◌≡◌, ◌∙◌, ◌/◌, ◌^◌, sym, subst, refl, ap, inl, none, some, List, [], ◌∷◌, ◌==◌,
  if◌then◌else◌, arith,
}
use creeks_old.Disk.{Port}
use creeks_old.Ext2.{
  SuperBlock, Disk, Inode, super_block, partition, group_desc, inode_offset, ext2_read_inode,
  ext2_read_file,
}
use creeks_old.Files.{FileSystem, CachedFile, Cache, ext2}
use creeks_old.Base.Endian.{u16_at, u32_at}
use creeks_old.Files.Listing.{Entry, AreBytes, AreEntries}
use creeks_old.Files.Cached.{IsCache}
use creeks_old.Files.Components.{components}
use creeks_old.Files.Directory.{HasListing}
use creeks_old.Files.Resolve.{resolve, IsAt}
use creeks_old.Tasks.Tests.{idle, idle-IsFamily, idle-HasRoom}
use creeks_old.Exec.{Executed, sys_exec}
use creeks_old.Exec.Found.{Executes, sys_exec-Executes}

-- The inode stands in sector 2, the directory's entry in sector 1.
abbrev inode_words : ℕ → ℕ
inode_words idx =
    if idx == 0 then 0x41ED else (if idx == 2 then 12 else (if idx == 20 then 32 else 0))

abbrev entry_words : ℕ → ℕ
entry_words idx =
    if idx == 0
    then 5
    else (if idx == 2 then 12 else (if idx == 3 then 1 else (if idx == 4 then 97 else 0)))

abbrev one_port : Port
one_port c idx = if c.low == 2 then inode_words idx else entry_words idx

abbrev one_sb : SuperBlock
one_sb = record (super_block (λ i. 0)) { s_inodes_per_group = 1; s_inode_size = 128 }

abbrev one_disk : Disk
one_disk = record {
  device = 0;
  part = partition (λ i. 0);
  sb = one_sb;
  blocksize = 16;
  groups = 1;
  gd = λ i. record (group_desc (λ i. 0) 0) { bg_inode_table = 64 };
}

one_offset : (i : ℕ) → inode_offset one_disk i ≡ 1024
unfolding inode_offset
one_offset i = let z : (i - 1) % 1 ≡ 0 = omega arith in rw z refl

one_inode : (i : ℕ) → ext2_read_inode one_port one_disk i ≡ ext2_read_inode one_port one_disk 1
unfolding ext2_read_inode
one_inode i = rw (one_offset i) refl

abbrev one_dirs : ℕ → List Entry
one_dirs inum = (97 ∷ [], 5) ∷ []

abbrev one_fs : FileSystem
one_fs = ext2 one_port one_disk

-- What is read of the inode and of the directory.
one_entries :
    (one_fs.read_inode 1).i_mode / 2 ^ 12 % 16 ≡ 4
    × (AreEntries
          (one_fs.read_file (one_fs.read_inode 1))
          0
          (one_fs.read_inode 1).i_size
          ((97 ∷ [], 5) ∷ [])
        × ((one_fs.read_inode 1).i_size ≡ 12))
unfolding AreEntries AreBytes u32_at u16_at ext2_read_inode ext2_read_file partition
one_entries = (
  refl,
  (
    (
      12,
      (
        record {
          inode = refl;
          used = λ e. omega (arith, e);
          size = refl;
          name_len = refl;
          bytes = ((refl, λ e. omega (arith, e)), tt);
        },
        (omega arith, (omega arith, refl)),
      ),
    ),
    refl,
  ),
)

one-HasListing : HasListing one_fs 2 one_dirs
one-HasListing =
    let (directory, (entries, size)) = one_entries in
    (
      λ inum. inl (ap (λ (i : Inode). i.i_mode / 2 ^ 12 % 16) (one_inode inum) ∙ directory),
      λ inum is_one. (
        subst (λ (i : Inode). AreEntries (one_fs.read_file i) 0 i.i_size ((97 ∷ [], 5) ∷ []))
            (sym (one_inode inum)) entries,
        (
          omega arith,
          let e = ap (λ (i : Inode). i.i_size) (one_inode inum) ∙ size in omega (arith, e),
        ),
      ),
    )

abbrev one_root : CachedFile
one_root = record {
  inum = 2;
  name = 47 ∷ [];
  inode = none;
  mmap = none;
  opened = 0;
  parent = 0;
  leaf = [];
}

abbrev one_cache : Cache
one_cache = record { files = λ f. one_root; new = 1 }

one_cache-IsCache : IsCache one_fs one_dirs one_cache
one_cache-IsCache f h = record {
  leaves = tt;
  parent = omega arith;
  inode = inl refl;
  mmap = inl refl;
}

one_cache-IsAt : IsAt one_fs one_dirs one_cache 0 2 []
unfolding IsAt
one_cache-IsAt = (refl, refl)

sys_exec-Executes_example :
    (a : Executed) × ((sys_exec one_port one_disk 0x5000 0x9000 0x800000 2 0
          (47 ∷ 97 ∷ [])
          ((97 ∷ []) ∷ [])
          one_cache
          idle
        ≡ some a)
      × (IsCache one_fs one_dirs (a.1.0)
          × Executes one_port one_disk 0x5000 0x9000 0x800000 one_dirs
              ((97 ∷ []) ∷ [])
              one_cache
              idle
              (resolve one_fs one_dirs (components (47 ∷ 97 ∷ [])) (2, []))
              a))
sys_exec-Executes_example =
    sys_exec-Executes one_port one_disk 0x5000 0x9000 0x800000 one_dirs 2 0 2 2 [] (47 ∷ 97 ∷ [])
      ((97 ∷ []) ∷ []) one_cache idle one-HasListing one_cache-IsCache idle-IsFamily idle-HasRoom
      (omega arith) (omega arith) one_cache-IsAt one_cache-IsAt
