-- ===== src/Ext2/Inodes.antt =====
-- Where `ext2_read_inode` of kern/ext2.c finds an inode.
use creeks_old.Base.{ℕ, ◌+◌, ◌-◌, ◌*◌, ◌/◌, ◌%◌, ◌^◌, ◌≤◌, ◌<◌, ◌≡◌, ◌∙◌, ap, ap₂, arith}
use creeks_old.Base.Endian.{u16_at, u32_at}
use creeks_old.Libc.{Bytes}
use creeks_old.Disk.{Port}
use creeks_old.Disk.Transfer.{IsController, disk_read_lem}
use creeks_old.Ext2.{u32, Disk, inode_of, inode_offset, read_new, ext2_read_inode}

-- A number that is read from equal bytes.
u16_at-same :
    (f g : Bytes) (a b : ℕ) → ((i : ℕ) → i < 2 → f (a + i) ≡ g (b + i)) → u16_at f a ≡ u16_at g b
unfolding u16_at
u16_at-same f g a b e =
    let x : a + 0 ≡ a = omega arith in
    let y : b + 0 ≡ b = omega arith in
    let low = rw (x, y) at (e 0 (omega arith)) in ap₂ (λ l h. l + 0x100 * h) low (e 1 (omega arith))

pub u32_at-same :
    (f g : Bytes) (a b : ℕ) → ((i : ℕ) → i < 4 → f (a + i) ≡ g (b + i)) → u32_at f a ≡ u32_at g b
unfolding u32_at
u32_at-same f g a b e =
    ap₂ (λ l h. l + 0x10000 * h) (u16_at-same f g a b (λ i h. e i (omega arith)))
      (u16_at-same f g (a + 2) (b + 2) (λ i h.
        let x : a + 2 + i ≡ a + (2 + i) = omega arith in
        let y : b + 2 + i ≡ b + (2 + i) = omega arith in rw (x, y) (e (2 + i) (omega arith))))

-- What stands in a new buffer.
pub read_new_lem :
    (port : Port) (disk : ℕ → Bytes)
    → IsController port disk
    → (drive offset count i : ℕ) → drive < 2
    → offset + count < 2 ^ 31
    → count ≤ 2 ^ 16
    → i < count
    → read_new port drive offset count i ≡ disk drive (offset + i)
unfolding read_new
read_new_lem port disk controller drive offset count i d w z h =
    disk_read_lem port disk controller drive offset 0 count (λ i. 0) i d w (omega (arith, z))
    ∙ ground (arith, h)

inode_offset_lem :
    (hd : Disk) (gr_num index : ℕ)
    → index < hd.sb.s_inodes_per_group
    → let offset = (hd.gd gr_num).bg_inode_table * hd.blocksize + index * hd.sb.s_inode_size in
      offset < 2 ^ 32 → inode_offset hd (gr_num * hd.sb.s_inodes_per_group + index + 1) ≡ offset
unfolding inode_offset
inode_offset_lem hd gr_num index i w =
    let per = hd.sb.s_inodes_per_group in
    let e : gr_num * per + index + 1 - 1 ≡ gr_num * per + index = omega arith in
    let q : (gr_num * per + index) / per ≡ gr_num = grind arith in
    let r : (gr_num * per + index) % per ≡ index = grind arith in rw (e, q, r) (omega arith)

inode_of_lem :
    (f g : Bytes) (place : ℕ)
    → ((a : ℕ) → a < 100 → f a ≡ g (place + a))
    → ((inode_of f).i_mode ≡ u16_at g place)
      × (((inode_of f).i_size ≡ u32_at g (place + 4))
          × ((k : ℕ) → k < 15 → (inode_of f).i_block k ≡ u32_at g (place + 40 + 4 * k)))
unfolding inode_of
inode_of_lem f g place e = (
  u16_at-same f g 0 place (λ i h. let z : 0 + i ≡ i = omega arith in rw z (e i (omega arith))),
  (
    u32_at-same f g 4 (place + 4) (λ i h.
        let y : place + 4 + i ≡ place + (4 + i) = omega arith in rw y (e (4 + i) (omega arith))),
    λ k l. u32_at-same f g (40 + 4 * k) (place + 40 + 4 * k) (λ i h.
        let y : place + 40 + 4 * k + i ≡ place + (40 + 4 * k + i) = omega arith in
        rw y (e (40 + 4 * k + i) (omega arith))),
  ),
)

-- With a controller that gives the bytes of its drives in order, ext2_read_inode of the inode number
-- `gr_num * s_inodes_per_group + index + 1` takes the mode, the size and the fifteen block numbers
-- from the entry number `index` of the inode table of the group `gr_num`, for an inode of at least 100
-- bytes and at most the 128 that are allocated for it, that ends within the first 2^31 bytes of the
-- drive.
pub ext2_read_inode_lem :
    (port : Port) (disk : ℕ → Bytes)
    → IsController port disk
    → (hd : Disk) (gr_num index : ℕ) → hd.device < 2
    → index < hd.sb.s_inodes_per_group
    → 100 ≤ hd.sb.s_inode_size
    → hd.sb.s_inode_size ≤ 128
    → let place =
        hd.part.s_lba * 512
        + ((hd.gd gr_num).bg_inode_table * hd.blocksize + index * hd.sb.s_inode_size) in
      let inode = ext2_read_inode port hd (gr_num * hd.sb.s_inodes_per_group + index + 1) in
      place + hd.sb.s_inode_size < 2 ^ 31
      → (inode.i_mode ≡ u16_at (disk hd.device) place)
        × ((inode.i_size ≡ u32_at (disk hd.device) (place + 4))
            × ((k : ℕ) → k < 15 → inode.i_block k ≡ u32_at (disk hd.device) (place + 40 + 4 * k)))
unfolding ext2_read_inode
ext2_read_inode_lem port disk controller hd gr_num index d i z z' w =
    let offset = (hd.gd gr_num).bg_inode_table * hd.blocksize + index * hd.sb.s_inode_size in
    let at = inode_offset_lem hd gr_num index i (omega arith) in
    let place : u32 (hd.part.s_lba * 512 + offset) ≡ hd.part.s_lba * 512 + offset = omega arith in
    let same = ap (λ o. u32 (hd.part.s_lba * 512 + o)) at ∙ place in
    inode_of_lem (read_new port hd.device _ hd.sb.s_inode_size) (disk hd.device)
      (hd.part.s_lba * 512 + offset)
      (λ a h. rw same (
        read_new_lem port disk controller hd.device (hd.part.s_lba * 512 + offset)
          hd.sb.s_inode_size a d w (omega (arith, z')) (omega arith)))
