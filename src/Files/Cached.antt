-- ===== src/Files/Cached.antt =====
-- The invariant of the cache of kern/file.c against the directories on the disk.
use creeks_old.Base.{
  ℕ, ◌<◌, ◌≡◌, ◌∙◌, ◌⊎◌, refl, sym, ap, ap₂, inl, inr, none, some, List, [], All, All-map,
  update_self, at_update, arith,
}
use creeks_old.Files.{
  FileSystem, CachedFile, Cache, set_file, new_file, add_leaf, inode_now, dir_buffer,
}
use creeks_old.Files.Extends.{Extends, IsSame, set_file-Extends, new_file-Extends}
use creeks_old.Files.Listing.{Entry, lookup}

module _ (fs : FileSystem) (dirs : ℕ → List Entry) where
  -- A leaf of the file `f` is the file that its directory on the disk has under its name.
  pub record IsLeaf (c : Cache) (f inum l : ℕ) : Type 0 where
    pub below : l < c.new
    pub parent : (c.files l).parent ≡ f
    pub named : lookup (dirs inum) (c.files l).name ≡ some (c.files l).inum

  -- What is kept of a file is what is on the disk.
  pub record IsFile (c : Cache) (f : ℕ) (file : CachedFile) : Type 0 where
    pub leaves : All (IsLeaf c f file.inum) file.leaf
    pub parent : file.parent < c.new
    pub inode : (file.inode ≡ none) ⊎ (file.inode ≡ some (fs.read_inode file.inum))
    pub mmap : (file.mmap ≡ none) ⊎ (file.mmap ≡ some (fs.read_file (fs.read_inode file.inum)))

  abbrev pub IsCache : Cache → Type 0
  IsCache c = (f : ℕ) → f < c.new → IsFile c f (c.files f)

  IsLeaf-later : (c d : Cache) (f inum l : ℕ) → Extends c d → IsLeaf c f inum l → IsLeaf d f inum l
  IsLeaf-later c d f inum l x leaf = record {
    below = omega (arith, x.grows, leaf.below);
    parent = x.parent l leaf.below ∙ leaf.parent;
    named =
        ap (lookup (dirs inum)) (x.name l leaf.below)
        ∙ (leaf.named ∙ ap some (sym (x.inum l leaf.below)));
  }

  pub IsFile-later :
      (c d : Cache) (f : ℕ) (file : CachedFile) → Extends c d → IsFile c f file → IsFile d f file
  IsFile-later c d f file x ok = record {
    leaves =
        All-map (IsLeaf c f file.inum) (IsLeaf d f file.inum) file.leaf
          (λ l. IsLeaf-later c d f file.inum l x) ok.leaves;
    parent = omega (arith, x.grows, ok.parent);
    inode = ok.inode;
    mmap = ok.mmap;
  }

  -- Of a file that is in order the inode and the buffer that are used are the disk's.
  pub inode_now_lem :
      (c : Cache) (f : ℕ) (file : CachedFile)
      → IsFile c f file
      → inode_now fs file ≡ fs.read_inode file.inum
  unfolding inode_now
  inode_now_lem c f file ok = elim ok.inode [ inl e ↦ rw e refl | inr e ↦ rw e refl ]

  pub dir_buffer_lem :
      (c : Cache) (f : ℕ) (file : CachedFile)
      → IsFile c f file
      → dir_buffer fs file ≡ fs.read_file (fs.read_inode file.inum)
  unfolding dir_buffer
  dir_buffer_lem c f file ok = elim ok.mmap [
    | inl e ↦ rw e (ap fs.read_file (inode_now_lem c f file ok))
    | inr e ↦ rw e refl
  ]

  pub set_file-IsCache :
      (c : Cache) (fp : ℕ) (file : CachedFile)
      → IsSame (c.files fp) file
      → IsCache c
      → IsFile c fp file
      → IsCache (set_file fp file c)
  set_file-IsCache c fp file same ok new f h =
      let x = set_file-Extends c fp file same in
      at_update (IsFile (set_file fp file c)) c.files fp file (IsFile-later c _ fp file x new) f
        (λ ne. IsFile-later c _ f (c.files f) x (ok f h))

  pub new_file-IsCache :
      (c : Cache) (file : CachedFile)
      → IsCache c
      → IsFile (new_file file c) c.new file
      → IsCache (new_file file c)
  unfolding new_file
  new_file-IsCache c file ok new f h =
      at_update (IsFile (new_file file c)) c.files c.new file new f (λ ne.
        IsFile-later c _ f (c.files f) (new_file-Extends c file) (ok f (omega (arith, h, ne))))

  -- A leaf for an entry of the directory whose name has none.
  pub add_leaf-IsCache :
      (c : Cache) (dir inum : ℕ) (name : List ℕ)
      → dir < c.new
      → IsCache c
      → lookup (dirs (c.files dir).inum) name ≡ some inum
      → IsCache (add_leaf dir inum name c)
  unfolding add_leaf
  add_leaf-IsCache c dir inum name h ok entry =
      let leaf : CachedFile = record {
        inum = inum;
        name = name;
        inode = none;
        mmap = none;
        opened = (c.files c.new).opened;
        parent = dir;
        leaf = [];
      } in
      let added = new_file leaf c in
      let x = new_file-Extends c leaf in
      let fresh : IsFile added c.new leaf = record {
        leaves = tt;
        parent = omega (arith, h);
        inode = inl refl;
        mmap = inl refl;
      } in
      let ok' = new_file-IsCache c leaf ok fresh in
      let d = ok' dir (omega (arith, h)) in
      let at : added.files c.new ≡ leaf = update_self c.files c.new leaf in
      set_file-IsCache added dir _ (record { inum = refl; name = refl; parent = refl }) ok'
        (record {
          leaves = (
            record {
              below = omega arith;
              parent = ap (λ (v : CachedFile). v.parent) at;
              named =
                  ap₂ (λ i (v : CachedFile). lookup (dirs i) v.name) (x.inum dir h) at
                  ∙ (entry ∙ ap (λ (v : CachedFile). some v.inum) (sym at));
            },
            d.leaves,
          );
          parent = d.parent;
          inode = d.inode;
          mmap = d.mmap;
        })
