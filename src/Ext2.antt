-- ===== src/Ext2.antt =====
-- The ext2 file system, kern/ext2.c and kern/ext2.h, over the disk driver. A structure that is read
-- from the disk is a value, taken from its bytes; the buffers that a function allocates and frees
-- itself are values too. `int` and `u32` are words, and offsets on the disk are not negative.
pub mod Inodes
pub mod Blocks
pub mod Named
pub mod Contents
pub mod Tests
use creeks_old.Base.{ℕ, zero, suc, ◌+◌, ◌-◌, ◌*◌, ◌/◌, ◌%◌, ◌^◌, Bool, ◌==◌, ltb, if◌then◌else◌}
use creeks_old.Base.Endian.{u16_at, u32_at}
use creeks_old.Libc.{Bytes}
use creeks_old.Disk.{Port, disk_read, copy_from}

abbrev pub u32 : ℕ → ℕ
u32 n = n % 2 ^ 32

-- `struct ext2_super_block`, and where its fields stand in its 1024 bytes.
pub record SuperBlock : Type 0 where
  pub s_inodes_count : ℕ
  pub s_blocks_count : ℕ
  pub s_r_blocks_count : ℕ
  pub s_free_blocks_count : ℕ
  pub s_free_inodes_count : ℕ
  pub s_first_data_block : ℕ
  pub s_log_block_size : ℕ
  pub s_log_frag_size : ℕ
  pub s_blocks_per_group : ℕ
  pub s_frags_per_group : ℕ
  pub s_inodes_per_group : ℕ
  pub s_mtime : ℕ
  pub s_wtime : ℕ
  pub s_mnt_count : ℕ
  pub s_max_mnt_count : ℕ
  pub s_magic : ℕ
  pub s_state : ℕ
  pub s_errors : ℕ
  pub s_minor_rev_level : ℕ
  pub s_lastcheck : ℕ
  pub s_checkinterval : ℕ
  pub s_creator_os : ℕ
  pub s_rev_level : ℕ
  pub s_def_resuid : ℕ
  pub s_def_resgid : ℕ
  pub s_first_ino : ℕ
  pub s_inode_size : ℕ
  pub s_block_group_nr : ℕ
  pub s_feature_compat : ℕ
  pub s_feature_incompat : ℕ
  pub s_feature_ro_compat : ℕ
  pub s_uuid : Bytes
  pub s_volume_name : Bytes
  pub s_last_mounted : Bytes
  pub s_algo_bitmap : ℕ
  pub s_padding : Bytes

unfoldable pub super_block : Bytes → SuperBlock
unfolding u32_at u16_at
super_block b = record {
  s_inodes_count = u32_at b 0;
  s_blocks_count = u32_at b 4;
  s_r_blocks_count = u32_at b 8;
  s_free_blocks_count = u32_at b 12;
  s_free_inodes_count = u32_at b 16;
  s_first_data_block = u32_at b 20;
  s_log_block_size = u32_at b 24;
  s_log_frag_size = u32_at b 28;
  s_blocks_per_group = u32_at b 32;
  s_frags_per_group = u32_at b 36;
  s_inodes_per_group = u32_at b 40;
  s_mtime = u32_at b 44;
  s_wtime = u32_at b 48;
  s_mnt_count = u16_at b 52;
  s_max_mnt_count = u16_at b 54;
  s_magic = u16_at b 56;
  s_state = u16_at b 58;
  s_errors = u16_at b 60;
  s_minor_rev_level = u16_at b 62;
  s_lastcheck = u32_at b 64;
  s_checkinterval = u32_at b 68;
  s_creator_os = u32_at b 72;
  s_rev_level = u32_at b 76;
  s_def_resuid = u16_at b 80;
  s_def_resgid = u16_at b 82;
  s_first_ino = u32_at b 84;
  s_inode_size = u16_at b 88;
  s_block_group_nr = u16_at b 90;
  s_feature_compat = u32_at b 92;
  s_feature_incompat = u32_at b 96;
  s_feature_ro_compat = u32_at b 100;
  s_uuid = λ i. b (104 + i);
  s_volume_name = λ i. b (120 + i);
  s_last_mounted = λ i. b (136 + i);
  s_algo_bitmap = u32_at b 200;
  s_padding = λ i. b (204 + i);
}

-- `struct partition`, and where its fields stand in an entry of the partition table.
pub record Partition : Type 0 where
  pub bootable : ℕ
  pub s_head : ℕ
  pub s_sector : ℕ
  pub s_cyl : ℕ
  pub id : ℕ
  pub e_head : ℕ
  pub e_sector : ℕ
  pub e_cyl : ℕ
  pub s_lba : ℕ
  pub size : ℕ

unfoldable pub partition : Bytes → Partition
unfolding u32_at u16_at
partition b = record {
  bootable = b 0;
  s_head = b 1;
  s_sector = u16_at b 2 % 2 ^ 6;
  s_cyl = u16_at b 2 / 2 ^ 6;
  id = b 4;
  e_head = b 5;
  e_sector = u16_at b 6 % 2 ^ 6;
  e_cyl = u16_at b 6 / 2 ^ 6;
  s_lba = u32_at b 8;
  size = u32_at b 12;
}

-- `struct ext2_group_desc`, of 32 bytes.
pub record GroupDesc : Type 0 where
  pub bg_block_bitmap : ℕ
  pub bg_inode_bitmap : ℕ
  pub bg_inode_table : ℕ
  pub bg_free_blocks_count : ℕ
  pub bg_free_inodes_count : ℕ
  pub bg_used_dirs_count : ℕ
  pub bg_pad : ℕ
  pub bg_reserved : ℕ → ℕ

unfoldable pub group_desc : Bytes → ℕ → GroupDesc
unfolding u32_at u16_at
group_desc b i = record {
  bg_block_bitmap = u32_at b (32 * i + 0);
  bg_inode_bitmap = u32_at b (32 * i + 4);
  bg_inode_table = u32_at b (32 * i + 8);
  bg_free_blocks_count = u16_at b (32 * i + 12);
  bg_free_inodes_count = u16_at b (32 * i + 14);
  bg_used_dirs_count = u16_at b (32 * i + 16);
  bg_pad = u16_at b (32 * i + 18);
  bg_reserved = λ k. u32_at b (32 * i + 20 + 4 * k);
}

-- `struct ext2_inode`
pub record Inode : Type 0 where
  pub i_mode : ℕ
  pub i_uid : ℕ
  pub i_size : ℕ
  pub i_atime : ℕ
  pub i_ctime : ℕ
  pub i_mtime : ℕ
  pub i_dtime : ℕ
  pub i_gid : ℕ
  pub i_links_count : ℕ
  pub i_blocks : ℕ
  pub i_flags : ℕ
  pub i_osd1 : ℕ
  pub i_block : ℕ → ℕ
  pub i_generation : ℕ
  pub i_file_acl : ℕ
  pub i_dir_acl : ℕ
  pub i_faddr : ℕ
  pub i_osd2 : Bytes

unfoldable pub inode_of : Bytes → Inode
unfolding u32_at u16_at
inode_of b = record {
  i_mode = u16_at b 0;
  i_uid = u16_at b 2;
  i_size = u32_at b 4;
  i_atime = u32_at b 8;
  i_ctime = u32_at b 12;
  i_mtime = u32_at b 16;
  i_dtime = u32_at b 20;
  i_gid = u16_at b 24;
  i_links_count = u16_at b 26;
  i_blocks = u32_at b 28;
  i_flags = u32_at b 32;
  i_osd1 = u32_at b 36;
  i_block = λ i. u32_at b (40 + 4 * i);
  i_generation = u32_at b 100;
  i_file_acl = u32_at b 104;
  i_dir_acl = u32_at b 108;
  i_faddr = u32_at b 112;
  i_osd2 = λ i. b (116 + i);
}

-- `struct disk`
pub record Disk : Type 0 where
  pub device : ℕ
  pub part : Partition
  pub sb : SuperBlock
  pub blocksize : ℕ
  pub groups : ℕ
  pub gd : ℕ → GroupDesc

-- A buffer, filled by `disk_read` from its start. ext2_read_inode allocates 128 bytes and reads
-- `s_inode_size`; what a larger size writes behind the buffer is not modelled.
unfoldable pub read_new : Port → (drive offset count : ℕ) → Bytes
unfolding disk_read
read_new port drive offset count = disk_read port drive offset 0 count (λ i. 0)

unfoldable pub ext2_read_sb : Port → (device s_part : ℕ) → SuperBlock
unfolding read_new super_block
ext2_read_sb port device s_part = super_block (read_new port device (s_part + 1024) 1024)

-- Where the group descriptors stand in the partition.
unfoldable pub gd_offset : ℕ → ℕ
gd_offset blocksize = if blocksize == 1024 then 2048 else blocksize

unfoldable pub ext2_read_gd : Port → (device blocksize groups s_part : ℕ) → ℕ → GroupDesc
unfolding read_new group_desc gd_offset
ext2_read_gd port device blocksize groups s_part =
    group_desc (read_new port device (s_part + gd_offset blocksize) (groups * 32))

-- The number of groups of `per` that `count` things need.
unfoldable pub groups_for : (count per : ℕ) → ℕ
groups_for count per = count / per + (if count % per == 0 then 0 else 1)

unfoldable pub ext2_get_disk_info : Port → (device : ℕ) → Partition → Disk
unfolding ext2_read_sb ext2_read_gd groups_for
ext2_get_disk_info port device part =
    let sb = ext2_read_sb port device (u32 (part.s_lba * 512)) in
    let blocksize = u32 (1024 * 2 ^ (sb.s_log_block_size % 32)) in
    let i = groups_for sb.s_blocks_count sb.s_blocks_per_group in
    let j = groups_for sb.s_inodes_count sb.s_inodes_per_group in
    let groups = (if ltb j i then i else j) % 2 ^ 16 in
    record {
      device = device;
      part = part;
      sb = sb;
      blocksize = blocksize;
      groups = groups;
      gd = ext2_read_gd port device blocksize groups (u32 (part.s_lba * 512));
    }

-- Where an inode stands on the disk.
unfoldable pub inode_offset : Disk → ℕ → ℕ
inode_offset hd i_num =
    let gr_num = (i_num - 1) / hd.sb.s_inodes_per_group in
    let index = (i_num - 1) % hd.sb.s_inodes_per_group in
    u32 ((hd.gd gr_num).bg_inode_table * hd.blocksize + index * hd.sb.s_inode_size)

unfoldable pub ext2_read_inode : Port → Disk → ℕ → Inode
unfolding read_new inode_of inode_offset
ext2_read_inode port hd i_num =
    inode_of (
      read_new port hd.device (u32 (hd.part.s_lba * 512 + inode_offset hd i_num))
        hd.sb.s_inode_size)

-- The bytes of a block.
unfoldable pub read_block : Port → Disk → ℕ → Bytes
unfolding read_new
read_block port hd n =
    read_new port hd.device (u32 (hd.part.s_lba * 512 + n * hd.blocksize)) hd.blocksize

-- `mmap_head`, `size` and the memory that the file is copied to.
pub record Copy : Type 0 where
  pub head : ℕ
  pub size : ℕ
  pub memory : Bytes

-- A block of the file is copied, as far as the file goes.
unfoldable pub copy_block : Port → Disk → ℕ → Copy → Copy
unfolding read_block copy_from
copy_block port hd block s =
    let n = if ltb hd.blocksize s.size then hd.blocksize else s.size in
    record {
      head = s.head + n;
      size = s.size - n;
      memory = copy_from n s.head (read_block port hd block) 0 s.memory;
    }

-- `for (i = ...; i < ... && p[i]; i++)` with the rounds left.
unfoldable pub for_entries : (ℕ → Copy → Copy) → (left i : ℕ) → (ℕ → ℕ) → Copy → Copy
for_entries body zero i p s = s
for_entries body (suc left) i p s =
    let rest = for_entries body left (i + 1) p (body (p i) s) in if p i == 0 then s else rest

-- The block numbers in a block.
unfoldable pub block_entries : Port → Disk → ℕ → ℕ → ℕ
unfolding read_block u32_at
block_entries port hd block i = u32_at (read_block port hd block) (4 * i)

-- The loop over the entries of a block.
unfoldable pub for_block : Port → Disk → (ℕ → Copy → Copy) → ℕ → Copy → Copy
unfolding for_entries block_entries
for_block port hd body block s =
    for_entries body (hd.blocksize / 4) 0 (block_entries port hd block) s

-- The same if the inode has such a block.
unfoldable pub if_block : (ℕ → Copy → Copy) → ℕ → Copy → Copy
if_block body block s = let done = body block s in if block == 0 then s else done

-- The four parts of the file, copied to `mmap_base`.
unfoldable pub ext2_read_file : Port → Disk → Inode → (mmap_base : ℕ) → Bytes → Copy
unfolding copy_block for_entries for_block if_block
ext2_read_file port hd inode mmap_base m =
    let copy = copy_block port hd in
    let indirect = for_block port hd copy in
    let bi_indirect = for_block port hd indirect in
    let tri_indirect = for_block port hd bi_indirect in
    let s0 : Copy = record { head = mmap_base; size = inode.i_size; memory = m } in
    let s1 = for_entries copy 12 0 inode.i_block s0 in
    let s2 = if_block indirect (inode.i_block 12) s1 in
    let s3 = if_block bi_indirect (inode.i_block 13) s2 in
    if_block tri_indirect (inode.i_block 14) s3
