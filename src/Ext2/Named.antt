-- ===== src/Ext2/Named.antt =====
-- The blocks of a file by the numbers that stand on the disk, for `ext2_read_file` of kern/ext2.c.
use creeks_old.Base.{
  ℕ, zero, suc, ◌+◌, ◌*◌, ◌/◌, ◌≤◌, ◌<◌, ◌≡◌, ◌≢◌, ◌∙◌, ◌^◌, refl, ap, ap₂, inl, inr, Bool-cases,
  List, [], ◌∷◌, ◌++◌, All, ◌==◌, ne_of_==, if◌then◌else◌, arith,
}
use creeks_old.Base.Endian.{u32_at}
use creeks_old.Libc.{Bytes}
use creeks_old.Disk.{Port}
use creeks_old.Disk.Transfer.{IsController, disk_read_lem}
use creeks_old.Ext2.{u32, read_new, Disk, Inode, read_block, block_entries}
use creeks_old.Ext2.Blocks.{entries, concat_map, level_1, level_2, level_3, file_blocks}
use creeks_old.Ext2.Inodes.{u32_at-same}

module _ (disk : ℕ → Bytes) (hd : Disk) where
  -- Where a block begins on its drive.
  abbrev pub place_of : ℕ → ℕ
  place_of b = hd.part.s_lba * 512 + b * hd.blocksize

  abbrev pub IsInside : ℕ → Type 0
  IsInside b = place_of b + hd.blocksize < 2 ^ 31

  -- The numbers that stand in a block.
  abbrev pub numbers : ℕ → ℕ → ℕ
  numbers b i = u32_at (disk hd.device) (place_of b + 4 * i)

  unfoldable pub named_1 : ℕ → List ℕ
  named_1 b = entries (hd.blocksize / 4) 0 (numbers b)

  unfoldable pub named_2 : ℕ → List ℕ
  named_2 b = concat_map named_1 (named_1 b)

  unfoldable pub named_3 : ℕ → List ℕ
  named_3 b = concat_map named_2 (named_1 b)

  -- The blocks of a file in order.
  unfoldable pub disk_blocks : Inode → List ℕ
  disk_blocks inode =
      entries 12 0 inode.i_block
      ++ ((if inode.i_block 12 == 0 then [] else named_1 (inode.i_block 12))
          ++ ((if inode.i_block 13 == 0 then [] else named_2 (inode.i_block 13))
              ++ (if inode.i_block 14 == 0 then [] else named_3 (inode.i_block 14))))

  -- A block of numbers, of numbers of such blocks, and so on.
  abbrev pub LeadsInside : ℕ → Type 0
  LeadsInside b = IsInside b × All IsInside (named_1 b)

  -- The blocks of block numbers that the file has are inside.
  pub record AreInside (inode : Inode) : Type 0 where
    pub indirect : inode.i_block 12 ≢ 0 → IsInside (inode.i_block 12)
    pub bi_indirect : inode.i_block 13 ≢ 0 → LeadsInside (inode.i_block 13)
    pub tri_indirect :
        inode.i_block 14 ≢ 0
        → IsInside (inode.i_block 14) × All LeadsInside (named_1 (inode.i_block 14))

-- A block that lies within the first 2^31 bytes of a drive is read as it stands there.
pub read_block_lem :
    (port : Port) (disk : ℕ → Bytes)
    → IsController port disk
    → (hd : Disk) (b k : ℕ) → hd.device < 2
    → hd.part.s_lba * 512 + b * hd.blocksize + hd.blocksize < 2 ^ 31
    → hd.blocksize ≤ 2 ^ 16
    → k < hd.blocksize
    → read_block port hd b k ≡ disk hd.device (hd.part.s_lba * 512 + b * hd.blocksize + k)
unfolding read_block read_new
read_block_lem port disk controller hd b k d w z h =
    let place : u32 (hd.part.s_lba * 512 + b * hd.blocksize)
        ≡ hd.part.s_lba * 512 + b * hd.blocksize =
      omega arith in
    rw place (
      disk_read_lem port disk controller hd.device (hd.part.s_lba * 512 + b * hd.blocksize) 0
        hd.blocksize (λ i. 0) k d (omega (arith, w)) (omega (arith, z))
      ∙ ground (arith, h))

entries-same :
    (left i : ℕ) (p q : ℕ → ℕ)
    → ((j : ℕ) → j < i + left → p j ≡ q j)
    → entries left i p ≡ entries left i q
unfolding entries
entries-same zero i p q e = refl
entries-same (suc left) i p q e =
    rw (e i (omega arith), entries-same left (i + 1) p q (λ j h. e j (omega (arith, h)))) refl

concat_map-same :
    (P : ℕ → Type 0) (f g : ℕ → List ℕ) (xs : List ℕ)
    → ((x : ℕ) → P x → f x ≡ g x)
    → All P xs
    → concat_map f xs ≡ concat_map g xs
unfolding concat_map
concat_map-same P f g [] e all = refl
concat_map-same P f g (x ∷ xs) e (h, all) =
    ap₂ (λ a b. a ++ b) (e x h) (concat_map-same P f g xs e all)

same_if :
    (b : ℕ) (x y : List ℕ)
    → (b ≢ 0 → x ≡ y)
    → (if b == 0 then [] else x) ≡ (if b == 0 then [] else y)
same_if b x y e = elim (Bool-cases (b == 0)) [
  | inl none_named ↦ rw none_named refl
  | inr one ↦ rw one (e (ne_of_== b 0 one))
]

module _ (port : Port) (disk : ℕ → Bytes) (controller : IsController port disk) (hd : Disk)
    (drive : hd.device < 2) (blocks : hd.blocksize ≤ 2 ^ 16) where
  level_1-named_1 : (b : ℕ) → IsInside disk hd b → level_1 port hd b ≡ named_1 disk hd b
  unfolding level_1 named_1 block_entries
  level_1-named_1 b inside =
      entries-same (hd.blocksize / 4) 0 (block_entries port hd b) (numbers disk hd b) (λ j h.
        u32_at-same (read_block port hd b) (disk hd.device) (4 * j) (place_of disk hd b + 4 * j)
          (λ i l.
            read_block_lem port disk controller hd b (4 * j + i) drive inside blocks
              (omega (arith, h, l))
            ∙ ap (disk hd.device) (omega arith)))

  level_2-named_2 : (b : ℕ) → LeadsInside disk hd b → level_2 port hd b ≡ named_2 disk hd b
  unfolding level_2 named_2
  level_2-named_2 b (inside, all) =
      ap (concat_map (level_1 port hd)) (level_1-named_1 b inside)
      ∙ concat_map-same (IsInside disk hd) (level_1 port hd) (named_1 disk hd) (named_1 disk hd b)
          level_1-named_1 all

  level_3-named_3 :
      (b : ℕ)
      → IsInside disk hd b × All (LeadsInside disk hd) (named_1 disk hd b)
      → level_3 port hd b ≡ named_3 disk hd b
  unfolding level_3 named_3
  level_3-named_3 b (inside, all) =
      ap (concat_map (level_2 port hd)) (level_1-named_1 b inside)
      ∙ concat_map-same (LeadsInside disk hd) (level_2 port hd) (named_2 disk hd)
          (named_1 disk hd b) level_2-named_2 all

  pub file_blocks-disk_blocks :
      (inode : Inode)
      → AreInside disk hd inode
      → file_blocks port hd inode ≡ disk_blocks disk hd inode
  unfolding file_blocks disk_blocks
  file_blocks-disk_blocks inode inside =
      ap₂ (λ x y. entries 12 0 inode.i_block ++ (x ++ y))
        (same_if (inode.i_block 12) _ _ (λ ne. level_1-named_1 _ (inside.indirect ne)))
        (ap₂ (λ x y. x ++ y)
          (same_if (inode.i_block 13) _ _ (λ ne. level_2-named_2 _ (inside.bi_indirect ne)))
          (same_if (inode.i_block 14) _ _ (λ ne. level_3-named_3 _ (inside.tri_indirect ne))))
