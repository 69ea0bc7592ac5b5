-- ===== src/Files/Root.antt =====
-- The first file of the cache, `init_root` of kern/file.c.
use creeks_old.Base.{
  ℕ, ◌<◌, ◌≡◌, ◌∙◌, refl, ap, subst, inl, inr, Bool, true, Option, none, some, List, [], ◌∷◌,
  update_self, arith,
}
use creeks_old.Base.Options.{◌>>=◌}
use creeks_old.Files.{FileSystem, CachedFile, Cache, new_file, init_root}
use creeks_old.Files.Listing.{Entry}
use creeks_old.Files.Cached.{IsCache, IsFile, new_file-IsCache}
use creeks_old.Files.Entries.{Complete}
use creeks_old.Files.Directory.{is_dir, HasListing, get_dir_entries-Taken}
use creeks_old.Files.Resolve.{IsAt}

-- When the inode 2 is a directory's, on a disk without sockets and block devices whose directories have
-- no unused entries, init_root ends, and leaves a cache
-- that is in order with a new file, which is the root at the inode 2 and the directory above itself,
-- and has a leaf for every name among the entries of that inode other than "." and "..".
pub init_root-IsAt :
    (fs : FileSystem) (dirs : ℕ → List Entry) (entries : ℕ)
    → HasListing fs entries dirs
    → is_dir fs 2 ≡ true
    → (c : Cache) → IsCache fs dirs c
    → (d : Cache) × ((init_root fs entries c ≡ some (c.new, d))
        × (IsCache fs dirs d
            × ((c.new < d.new) × (IsAt fs dirs d c.new 2 [] × Complete d c.new (dirs 2)))))
unfolding init_root new_file IsAt
init_root-IsAt fs dirs entries listed directory c ok =
    let root : CachedFile = record {
      inum = 2;
      name = 47 ∷ [];
      inode = some (fs.read_inode 2);
      mmap = none;
      opened = (c.files c.new).opened;
      parent = c.new;
      leaf = [];
    } in
    let fresh : IsFile fs dirs (new_file root c) c.new root = record {
      leaves = tt;
      parent = omega arith;
      inode = inr refl;
      mmap = inl refl;
    } in
    let c' = new_file root c in
    let at : c'.files c.new ≡ root = update_self c.files c.new root in
    let number : (c'.files c.new).inum ≡ 2 = ap (λ (v : CachedFile). v.inum) at in
    let above : (c'.files c.new).parent ≡ c.new = ap (λ (v : CachedFile). v.parent) at in
    let (d, (read, t)) =
      get_dir_entries-Taken fs dirs c' entries c.new listed
        (new_file-IsCache fs dirs c root ok fresh) (omega arith)
        (ap (is_dir fs) number ∙ directory) in
    (
      d,
      (
        ap (λ (o : Option (Bool × Cache)). o >>= (λ r. some (c.new, r.1))) read,
        (
          t.cache,
          (
            omega (arith, t.extends.grows),
            (
              (
                t.extends.inum c.new (omega arith) ∙ number,
                t.extends.parent c.new (omega arith) ∙ above,
              ),
              subst (λ i. Complete d c.new (dirs i)) number t.complete,
            ),
          ),
        ),
      ),
    )
