-- ===== src/Ext2/Contents.antt =====
-- What `ext2_read_file` of kern/ext2.c leaves in memory.
use creeks_old.Base.{
  ℕ, zero, suc, ◌+◌, ◌-◌, ◌*◌, ◌≤◌, ◌<◌, ◌≡◌, ◌∙◌, ap, inl, inr, List, [], ◌∷◌, length, get_or,
  false, true, ◌⊎◌, ◌^◌, Bool-cases, leb, ltb, ◌&&◌, if◌then◌else◌, arith,
}
use creeks_old.Libc.{Bytes}
use creeks_old.Disk.{Port, copy_from}
use creeks_old.Disk.Transfer.{IsController, copy_from_lem}
use creeks_old.Ext2.{Disk, Inode, Copy, copy_block, read_block, ext2_read_file}
use creeks_old.Ext2.Blocks.{each, file_blocks, ext2_read_file-each}
use creeks_old.Ext2.Named.{AreInside, disk_blocks, read_block_lem, file_blocks-disk_blocks}

-- A copy of a block, of which `size` bytes are wanted, in front of what follows from `more`.
bytes_step :
    (blocksize size head room a : ℕ) (source more m : Bytes)
    → let n = if ltb blocksize size then blocksize else size in
      (if leb (head + n) a && ltb a (head + n + (if ltb room (size - n) then room else size - n))
        then more (a - (head + n))
        else copy_from n head source 0 m a)
      ≡ (if leb head a
            && ltb a (head + (if ltb (blocksize + room) size then blocksize + room else size))
          then (if ltb (a - head) blocksize then source (a - head) else more (a - head - blocksize))
          else m a)
bytes_step blocksize size head room a source more m =
    let z : 0 + (a - head) ≡ a - head = omega arith in
    let d : a - (head + blocksize) ≡ a - head - blocksize = omega arith in
    let full = rw z at (copy_from_lem blocksize head source 0 m a) in
    let part = rw z at (copy_from_lem size head source 0 m a) in
    elim (Bool-cases (ltb blocksize size)) [
      | inl wanted ↦ rw (wanted, d, full) (ground (arith, wanted))
      | inr last ↦ rw (last, part) (ground (arith, last))
    ]

module _ (port : Port) (hd : Disk) where
  -- The byte number `j` of blocks that follow each other.
  unfoldable pub byte_of : List ℕ → ℕ → ℕ
  byte_of [] j = 0
  byte_of (b ∷ bs) j =
      let rest = byte_of bs (j - hd.blocksize) in
      if ltb j hd.blocksize then read_block port hd b j else rest

  -- The bytes that blocks have together.
  unfoldable pub room : List ℕ → ℕ
  room [] = 0
  room (b ∷ bs) = hd.blocksize + room bs

  -- What is copied of `size` bytes from blocks.
  unfoldable pub copied : (size : ℕ) → List ℕ → ℕ
  unfolding room
  copied size bs = if ltb (room bs) size then room bs else size

  -- The memory with the blocks' bytes from `head` on.
  unfoldable pub holding : List ℕ → Copy → Bytes
  unfolding byte_of copied
  holding bs s a =
      if leb s.head a && ltb a (s.head + copied s.size bs)
      then byte_of bs (a - s.head)
      else s.memory a

  block_step :
      (b : ℕ) (bs : List ℕ) (s : Copy) (a : ℕ)
      → holding bs (copy_block port hd b s) a ≡ holding (b ∷ bs) s a
  unfolding holding byte_of copied room copy_block
  block_step b bs s a =
      bytes_step hd.blocksize s.size s.head (room bs) a (read_block port hd b) (byte_of bs) s.memory

  none_copied : (s : Copy) (a : ℕ) → s.memory a ≡ holding [] s a
  unfolding holding copied room
  none_copied s a = ground arith

  each-holding :
      (bs : List ℕ) (s : Copy) (a : ℕ) → (each (copy_block port hd) bs s).memory a ≡ holding bs s a
  unfolding each
  each-holding [] s a = none_copied s a
  each-holding (b ∷ bs) s a = each-holding bs (copy_block port hd b s) a ∙ block_step b bs s a

  byte_of-get_or :
      (bs : List ℕ) (i k : ℕ)
      → i < length bs
      → k < hd.blocksize
      → byte_of bs (i * hd.blocksize + k) ≡ read_block port hd (get_or bs i 0) k
  unfolding byte_of
  byte_of-get_or [] i k h l = absurd (omega arith)
  byte_of-get_or (b ∷ bs) zero k h l = ground (arith, l)
  byte_of-get_or (b ∷ bs) (suc i) k h l =
      let e : suc i * hd.blocksize + k - hd.blocksize ≡ i * hd.blocksize + k = omega arith in
      let far : ltb (suc i * hd.blocksize + k) hd.blocksize ≡ false = ground arith in
      rw (far, e) (byte_of-get_or bs i k (omega arith) l)

  below_room :
      (bs : List ℕ) (i k : ℕ) → i < length bs → k < hd.blocksize → i * hd.blocksize + k < room bs
  unfolding room
  below_room [] i k h l = absurd (omega arith)
  below_room (b ∷ bs) zero k h l = omega arith
  below_room (b ∷ bs) (suc i) k h l = omega (arith, below_room bs i k (omega arith) l)

  held :
      (bs : List ℕ) (s : Copy) (i k : ℕ)
      → i < length bs
      → k < hd.blocksize
      → i * hd.blocksize + k < s.size
      → holding bs s (s.head + (i * hd.blocksize + k)) ≡ read_block port hd (get_or bs i 0) k
  unfolding holding copied
  held bs s i k h l z =
      let e : s.head + (i * hd.blocksize + k) - s.head ≡ i * hd.blocksize + k = omega arith in
      let b = below_room bs i k h l in
      let there : (leb s.head (s.head + (i * hd.blocksize + k))
            && ltb (s.head + (i * hd.blocksize + k)) (s.head + copied s.size bs))
          ≡ true =
        ground (arith, b, z) in
      rw (there, e) (byte_of-get_or bs i k h l)

  kept :
      (bs : List ℕ) (s : Copy) (a : ℕ)
      → (a < s.head) ⊎ (s.head + s.size ≤ a)
      → holding bs s a ≡ s.memory a
  unfolding holding copied
  kept bs s a (inl below) = ground (arith, below)
  kept bs s a (inr above) = ground (arith, above)

-- With a controller that gives the bytes of its drives in order, ext2_read_file leaves in memory, from
-- its buffer on, block after block of the file as they stand on the disk, up to the size of the file,
-- and changes no byte outside the buffer. The blocks are the twelve of the inode and those that the
-- disk names in its indirect, bi-indirect and tri-indirect blocks, each list up to its first zero. The
-- block in question and all blocks of block numbers end within the first 2^31 bytes of the drive, and
-- a block has at most 2^16 bytes.
pub ext2_read_file_lem :
    (port : Port) (disk : ℕ → Bytes)
    → IsController port disk
    → (hd : Disk) (inode : Inode) (mmap_base : ℕ) (m : Bytes) → hd.device < 2
    → hd.blocksize ≤ 2 ^ 16
    → AreInside disk hd inode
    → let blocks = disk_blocks disk hd inode in
      let after = (ext2_read_file port hd inode mmap_base m).memory in
      ((i k : ℕ)
        → i < length blocks
        → k < hd.blocksize
        → i * hd.blocksize + k < inode.i_size
        → hd.part.s_lba * 512 + get_or blocks i 0 * hd.blocksize + hd.blocksize < 2 ^ 31
        → after (mmap_base + (i * hd.blocksize + k))
          ≡ disk hd.device (hd.part.s_lba * 512 + get_or blocks i 0 * hd.blocksize + k))
      × ((a : ℕ) → (a < mmap_base) ⊎ (mmap_base + inode.i_size ≤ a) → after a ≡ m a)
ext2_read_file_lem port disk controller hd inode mmap_base m d z inside =
    let s0 : Copy = record { head = mmap_base; size = inode.i_size; memory = m } in
    let blocks = disk_blocks disk hd inode in
    let all : (a : ℕ)
        → (ext2_read_file port hd inode mmap_base m).memory a ≡ holding port hd blocks s0 a =
      λ a.
        ap (λ s. s.memory a) (ext2_read_file-each port hd inode mmap_base m)
        ∙ (each-holding port hd (file_blocks port hd inode) s0 a
            ∙ ap (λ bs. holding port hd bs s0 a)
                (file_blocks-disk_blocks port disk controller hd d z inode inside)) in
    (
      λ i k h l n w.
          all (mmap_base + (i * hd.blocksize + k))
          ∙ (held port hd blocks s0 i k h l n
              ∙ read_block_lem port disk controller hd (get_or blocks i 0) k d w z l),
      λ a out. all a ∙ kept port hd blocks s0 a out,
    )
