-- ===== src/Paths/Tests.antt =====
-- A run of sys_pwd.
use creeks_old.Base.{◌≡◌, refl, some, [], ◌∷◌, ◌==◌, if◌then◌else◌}
use creeks_old.Base.Options.{◌>>=◌}
use creeks_old.Paths.{Tree, sys_pwd, path_size, put_path, put_name}

-- The file 2 is "bc" in the file 1, which is "a" in the root, 0.
abbrev tree : Tree
tree = record {
  name = λ f. if f == 1 then 97 ∷ [] else 98 ∷ 99 ∷ [];
  parent = λ f. if f == 2 then 1 else 0;
  f_root = 0;
}

-- "/a/bc"
path_of_two :
    sys_pwd 4 10 2 tree (λ a. 1)
      >>= (λ m. some (m 9 ∷ m 10 ∷ m 11 ∷ m 12 ∷ m 13 ∷ m 14 ∷ m 15 ∷ m 16 ∷ []))
    ≡ some (1 ∷ 47 ∷ 97 ∷ 47 ∷ 98 ∷ 99 ∷ 0 ∷ 1 ∷ [])
unfolding sys_pwd path_size put_path put_name
path_of_two = refl
