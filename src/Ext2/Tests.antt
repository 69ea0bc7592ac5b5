-- ===== src/Ext2/Tests.antt =====
-- Witnesses for kern/ext2.c, on a small drive.
use creeks_old.Base.{
  ℕ, ◌+◌, ◌*◌, ◌≤◌, ◌<◌, ◌≡◌, refl, [], ◌∷◌, ◌⊎◌, ◌==◌, if◌then◌else◌, length, get_or, arith,
}
use creeks_old.Base.Endian.{u16_at, u32_at}
use creeks_old.Disk.Tests.{drives, drives_port, drives_port-IsController}
use creeks_old.Ext2.{
  SuperBlock, Disk, Inode, super_block, partition, group_desc, inode_of, copy_block,
  ext2_read_inode, ext2_read_file,
}
use creeks_old.Ext2.Blocks.{each, file_blocks, ext2_read_file-each}
use creeks_old.Ext2.Named.{disk_blocks}
use creeks_old.Ext2.Contents.{ext2_read_file_lem}
use creeks_old.Ext2.Inodes.{ext2_read_inode_lem}

abbrev small_sb : SuperBlock
small_sb = record (super_block (λ i. 0)) {
  s_inodes_count = 16;
  s_blocks_count = 64;
  s_blocks_per_group = 32;
  s_inodes_per_group = 8;
  s_inode_size = 128;
}

abbrev pub small_disk : Disk
small_disk = record {
  device = 1;
  part = record (partition (λ i. 0)) { s_lba = 63 };
  sb = small_sb;
  blocksize = 1024;
  groups = 2;
  gd = λ i. record (group_desc (λ i. 0) i) {
    bg_inode_bitmap = 4 + 32 * i;
    bg_inode_table = 5 + 32 * i;
  };
}

abbrev pub two_blocks : Inode
two_blocks = record (inode_of (λ i. 0)) {
  i_mode = 0x8000;
  i_size = 1500;
  i_block = λ i. if i == 0 then 20 else (if i == 1 then 9 else 0);
}

ext2_read_file-each_example :
    ext2_read_file drives_port small_disk two_blocks 0x5000 (λ i. 7)
    ≡ each
        (copy_block drives_port small_disk)
        (20 ∷ 9 ∷ [])
        (record { head = 0x5000; size = 1500; memory = λ i. 7 })
unfolding file_blocks
ext2_read_file-each_example = ext2_read_file-each drives_port small_disk two_blocks 0x5000 (λ i. 7)

ext2_read_file_example :
    let blocks = disk_blocks drives small_disk two_blocks in
    let after = (ext2_read_file drives_port small_disk two_blocks 0x5000 (λ i. 7)).memory in
    ((i k : ℕ)
      → i < length blocks
      → k < 1024
      → i * 1024 + k < 1500
      → 63 * 512 + get_or blocks i 0 * 1024 + 1024 < 2147483648
      → after (0x5000 + (i * 1024 + k)) ≡ drives 1 (63 * 512 + get_or blocks i 0 * 1024 + k))
    × ((a : ℕ) → (a < 0x5000) ⊎ (0x5000 + 1500 ≤ a) → after a ≡ 7)
ext2_read_file_example =
    ext2_read_file_lem drives_port drives drives_port-IsController small_disk two_blocks 0x5000
      (λ i. 7) (omega arith) (omega arith)
      (record {
        indirect = λ ne. absurd (ne refl);
        bi_indirect = λ ne. absurd (ne refl);
        tri_indirect = λ ne. absurd (ne refl);
      })

ext2_read_inode_example :
    let inode = ext2_read_inode drives_port small_disk 13 in
    (inode.i_mode ≡ u16_at (drives 1) 70656)
    × ((inode.i_size ≡ u32_at (drives 1) 70660)
        × ((k : ℕ) → k < 15 → inode.i_block k ≡ u32_at (drives 1) (70696 + 4 * k)))
ext2_read_inode_example =
    ext2_read_inode_lem drives_port drives drives_port-IsController small_disk 1 4 (omega arith)
      (omega arith) (omega arith) (omega arith) (omega arith)
