-- ===== src/Files/Extends.antt =====
-- How the cache of kern/file.c grows.
use creeks_old.Base.{
  ℕ, ◌≤◌, ◌<◌, ◌≡◌, ◌∙◌, refl, ap, List, ◌∷◌, update, update_ne, at_update, ==_self, ==_of_ne,
  arith,
}
use creeks_old.Files.{CachedFile, Cache, set_file, new_file, add_leaf}

-- The later cache has the files of the earlier one, with their names and their places.
pub record Extends (c d : Cache) : Type 0 where
  pub grows : c.new ≤ d.new
  pub inum : (f : ℕ) → f < c.new → (d.files f).inum ≡ (c.files f).inum
  pub name : (f : ℕ) → f < c.new → (d.files f).name ≡ (c.files f).name
  pub parent : (f : ℕ) → f < c.new → (d.files f).parent ≡ (c.files f).parent

pub Extends-refl : (c : Cache) → Extends c c
Extends-refl c = record {
  grows = omega arith;
  inum = λ f h. refl;
  name = λ f h. refl;
  parent = λ f h. refl;
}

pub Extends-trans : (c d e : Cache) → Extends c d → Extends d e → Extends c e
Extends-trans c d e x y = record {
  grows = omega (arith, x.grows, y.grows);
  inum = λ f h. y.inum f (omega (arith, x.grows)) ∙ x.inum f h;
  name = λ f h. y.name f (omega (arith, x.grows)) ∙ x.name f h;
  parent = λ f h. y.parent f (omega (arith, x.grows)) ∙ x.parent f h;
}

-- A changed structure of the same file.
pub record IsSame (old file : CachedFile) : Type 0 where
  pub inum : file.inum ≡ old.inum
  pub name : file.name ≡ old.name
  pub parent : file.parent ≡ old.parent

pub set_file-Extends :
    (c : Cache) (fp : ℕ) (file : CachedFile)
    → IsSame (c.files fp) file
    → Extends c (set_file fp file c)
set_file-Extends c fp file same = record {
  grows = omega arith;
  inum =
      λ f h. at_update (λ x v. v.inum ≡ (c.files x).inum) c.files fp file same.inum f (λ ne. refl);
  name =
      λ f h. at_update (λ x v. v.name ≡ (c.files x).name) c.files fp file same.name f (λ ne. refl);
  parent = λ f h.
      at_update (λ x v. v.parent ≡ (c.files x).parent) c.files fp file same.parent f (λ ne. refl);
}

pub new_file-Extends : (c : Cache) (file : CachedFile) → Extends c (new_file file c)
unfolding new_file
new_file-Extends c file =
    let old : (f : ℕ) → f < c.new → update c.files c.new file f ≡ c.files f =
      λ f h. update_ne c.files c.new f file (λ e. omega (arith, h, e)) in
    record {
      grows = omega arith;
      inum = λ f h. ap (λ v. v.inum) (old f h);
      name = λ f h. ap (λ v. v.name) (old f h);
      parent = λ f h. ap (λ v. v.parent) (old f h);
    }

pub add_leaf-Extends :
    (c : Cache) (dir inum : ℕ) (name : List ℕ) → Extends c (add_leaf dir inum name c)
unfolding add_leaf
add_leaf-Extends c dir inum name =
    Extends-trans c _ _ (new_file-Extends c _)
      (set_file-Extends _ dir _ (record { inum = refl; name = refl; parent = refl }))

pub leaves_add_leaf :
    (c : Cache) (dir inum : ℕ) (name : List ℕ)
    → dir < c.new
    → ((add_leaf dir inum name c).files dir).leaf ≡ c.new ∷ (c.files dir).leaf
unfolding add_leaf new_file
leaves_add_leaf c dir inum name h =
    rw (==_self dir, ==_of_ne dir c.new (λ e. omega (arith, h, e))) refl

pub name_add_leaf :
    (c : Cache) (dir inum : ℕ) (name : List ℕ)
    → dir < c.new
    → ((add_leaf dir inum name c).files c.new).name ≡ name
unfolding add_leaf new_file
name_add_leaf c dir inum name h =
    rw (==_of_ne c.new dir (λ e. omega (arith, h, e)), ==_self c.new) refl
