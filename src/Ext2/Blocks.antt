-- ===== src/Ext2/Blocks.antt =====
-- The loops of `ext2_read_file` of kern/ext2.c as one pass over the list of a file's blocks.
use creeks_old.Base.{
  ℕ, zero, suc, ◌+◌, ◌/◌, ◌≡◌, ◌∙◌, refl, sym, ap, inl, inr, List, [], ◌∷◌, ◌++◌, Bool-cases, ◌==◌,
  if◌then◌else◌,
}
use creeks_old.Libc.{Bytes}
use creeks_old.Disk.{Port}
use creeks_old.Ext2.{
  Disk, Inode, Copy, copy_block, for_entries, for_block, if_block, block_entries, ext2_read_file,
}

-- The entries up to the first zero.
unfoldable pub entries : (left i : ℕ) → (ℕ → ℕ) → List ℕ
entries zero i p = []
entries (suc left) i p = let rest = entries left (i + 1) p in if p i == 0 then [] else p i ∷ rest

unfoldable pub concat_map : (ℕ → List ℕ) → List ℕ → List ℕ
concat_map f [] = []
concat_map f (x ∷ xs) = f x ++ concat_map f xs

module _ (port : Port) (hd : Disk) where
  -- The blocks that are named in a block, and those named in the blocks named there.
  unfoldable pub level_1 : ℕ → List ℕ
  unfolding entries
  level_1 block = entries (hd.blocksize / 4) 0 (block_entries port hd block)

  unfoldable pub level_2 : ℕ → List ℕ
  unfolding level_1 concat_map
  level_2 block = concat_map level_1 (level_1 block)

  unfoldable pub level_3 : ℕ → List ℕ
  unfolding level_2
  level_3 block = concat_map level_2 (level_1 block)

  abbrev if_named : (ℕ → List ℕ) → ℕ → List ℕ
  if_named level block = if block == 0 then [] else level block

  -- The blocks of a file in order: twelve direct ones, then those behind the indirect, the
  -- bi-indirect and the tri-indirect block.
  unfoldable pub file_blocks : Inode → List ℕ
  unfolding level_1 level_2 level_3
  file_blocks inode =
      entries 12 0 inode.i_block
      ++ (if_named level_1 (inode.i_block 12)
          ++ (if_named level_2 (inode.i_block 13) ++ if_named level_3 (inode.i_block 14)))

-- A step for each item, the first one first.
unfoldable pub each : (ℕ → Copy → Copy) → List ℕ → Copy → Copy
each body [] s = s
each body (x ∷ xs) s = each body xs (body x s)

each-append :
    (body : ℕ → Copy → Copy) (xs ys : List ℕ) (s : Copy)
    → each body (xs ++ ys) s ≡ each body ys (each body xs s)
unfolding each
each-append body [] ys s = refl
each-append body (x ∷ xs) ys s = each-append body xs ys (body x s)

each-concat_map :
    (body : ℕ → Copy → Copy) (outer : ℕ → Copy → Copy) (f : ℕ → List ℕ)
    → ((x : ℕ) (s : Copy) → outer x s ≡ each body (f x) s)
    → (xs : List ℕ) (s : Copy) → each outer xs s ≡ each body (concat_map f xs) s
unfolding each concat_map
each-concat_map body outer f same [] s = refl
each-concat_map body outer f same (x ∷ xs) s =
    ap (each outer xs) (same x s)
    ∙ (each-concat_map body outer f same xs (each body (f x) s)
        ∙ sym (each-append body (f x) (concat_map f xs) s))

for_entries-each :
    (body : ℕ → Copy → Copy) (left i : ℕ) (p : ℕ → ℕ) (s : Copy)
    → for_entries body left i p s ≡ each body (entries left i p) s
unfolding for_entries entries each
for_entries-each body zero i p s = refl
for_entries-each body (suc left) i p s = elim (Bool-cases (p i == 0)) [
  | inl end ↦ rw end refl
  | inr more ↦ rw more (for_entries-each body left (i + 1) p (body (p i) s))
]

module _ (port : Port) (hd : Disk) (copy : ℕ → Copy → Copy) where
  for_block-each :
      (body : ℕ → Copy → Copy) (f : ℕ → List ℕ)
      → ((x : ℕ) (s : Copy) → body x s ≡ each copy (f x) s)
      → (block : ℕ) (s : Copy)
      → for_block port hd body block s ≡ each copy (concat_map f (level_1 port hd block)) s
  unfolding for_block level_1
  for_block-each body f same block s =
      for_entries-each body (hd.blocksize / 4) 0 (block_entries port hd block) s
      ∙ each-concat_map copy body f same
          (entries (hd.blocksize / 4) 0 (block_entries port hd block)) s

  indirect-each :
      (block : ℕ) (s : Copy) → for_block port hd copy block s ≡ each copy (level_1 port hd block) s
  unfolding for_block level_1
  indirect-each block s = for_entries-each copy (hd.blocksize / 4) 0 (block_entries port hd block) s

  bi_indirect-each :
      (block : ℕ) (s : Copy)
      → for_block port hd (for_block port hd copy) block s ≡ each copy (level_2 port hd block) s
  unfolding level_2
  bi_indirect-each = for_block-each (for_block port hd copy) (level_1 port hd) indirect-each

  tri_indirect-each :
      (block : ℕ) (s : Copy)
      → for_block port hd (for_block port hd (for_block port hd copy)) block s
        ≡ each copy (level_3 port hd block) s
  unfolding level_3
  tri_indirect-each =
      for_block-each (for_block port hd (for_block port hd copy)) (level_2 port hd) bi_indirect-each

  if_block-each :
      (body : ℕ → Copy → Copy) (level : ℕ → List ℕ)
      → ((x : ℕ) (s : Copy) → body x s ≡ each copy (level x) s)
      → (block : ℕ) (s : Copy)
      → if_block body block s ≡ each copy (if block == 0 then [] else level block) s
  unfolding if_block each
  if_block-each body level same block s = elim (Bool-cases (block == 0)) [
    | inl none_here ↦ rw none_here refl
    | inr named ↦ rw named (same block s)
  ]

-- Parts that are done one after the other.
parts :
    (copy : ℕ → Copy → Copy) (f1 f2 f3 f4 : Copy → Copy) (l1 l2 l3 l4 : List ℕ)
    → ((s : Copy) → f1 s ≡ each copy l1 s)
    → ((s : Copy) → f2 s ≡ each copy l2 s)
    → ((s : Copy) → f3 s ≡ each copy l3 s)
    → ((s : Copy) → f4 s ≡ each copy l4 s)
    → (s : Copy) → f4 (f3 (f2 (f1 s))) ≡ each copy (l1 ++ (l2 ++ (l3 ++ l4))) s
parts copy f1 f2 f3 f4 l1 l2 l3 l4 e1 e2 e3 e4 s =
    ap (λ t. f4 (f3 (f2 t))) (e1 s)
    ∙ (ap (λ t. f4 (f3 t)) (e2 (each copy l1 s))
        ∙ (ap f4 (e3 (each copy l2 (each copy l1 s)))
            ∙ (e4 (each copy l3 (each copy l2 (each copy l1 s)))
                ∙ sym (
                    each-append copy l1 (l2 ++ (l3 ++ l4)) s
                    ∙ (each-append copy l2 (l3 ++ l4) (each copy l1 s)
                        ∙ each-append copy l3 l4 (each copy l2 (each copy l1 s)))))))

-- Reading a file copies its blocks one after the other in the order of the list of its blocks,
-- whatever level each of them is named on.
pub ext2_read_file-each :
    (port : Port) (hd : Disk) (inode : Inode) (mmap_base : ℕ) (m : Bytes)
    → ext2_read_file port hd inode mmap_base m
      ≡ each
          (copy_block port hd)
          (file_blocks port hd inode)
          (record { head = mmap_base; size = inode.i_size; memory = m })
unfolding ext2_read_file file_blocks
ext2_read_file-each port hd inode mmap_base m =
    let copy = copy_block port hd in
    let part = if_block-each port hd copy in
    parts copy (for_entries copy 12 0 inode.i_block)
      (if_block (for_block port hd copy) (inode.i_block 12))
      (if_block (for_block port hd (for_block port hd copy)) (inode.i_block 13))
      (if_block (for_block port hd (for_block port hd (for_block port hd copy))) (inode.i_block 14))
      (entries 12 0 inode.i_block)
      (if inode.i_block 12 == 0 then [] else level_1 port hd (inode.i_block 12))
      (if inode.i_block 13 == 0 then [] else level_2 port hd (inode.i_block 13))
      (if inode.i_block 14 == 0 then [] else level_3 port hd (inode.i_block 14))
      (for_entries-each copy 12 0 inode.i_block)
      (part (for_block port hd copy) (level_1 port hd) (indirect-each port hd copy)
        (inode.i_block 12))
      (part (for_block port hd (for_block port hd copy)) (level_2 port hd)
        (bi_indirect-each port hd copy) (inode.i_block 13))
      (part (for_block port hd (for_block port hd (for_block port hd copy))) (level_3 port hd)
        (tri_indirect-each port hd copy) (inode.i_block 14))
      (record { head = mmap_base; size = inode.i_size; memory = m })
