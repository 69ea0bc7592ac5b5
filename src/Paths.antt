-- ===== src/Paths.antt =====
-- The current directory of a process: sys_chdir and sys_pwd of kern/syscalls/syscalls.c. Files are
-- known by their numbers, a name is the list of its bytes; the lookup of a path is done before.
mod Tests
use creeks_old.Base.{
  ℕ, zero, suc, ◌+◌, ◌-◌, ◌^◌, Bool, Option, none, some, List, [], ◌∷◌, length, ◌==◌, ltb, not,
  if◌then◌else◌, update,
}
use creeks_old.Base.Options.{◌>>=◌}
use creeks_old.Libc.{Bytes}

-- `name` and `parent` of `struct file`
pub record Tree : Type 0 where
  pub name : ℕ → List ℕ
  pub parent : ℕ → ℕ
  pub f_root : ℕ

-- sys_chdir of the file that `path_to_file` found: the answer, a negative one as a 32-bit word, and
-- the directory afterwards.
unfoldable pub sys_chdir : (is_directory : ℕ → Bool) → Option ℕ → (pwd : ℕ) → ℕ × ℕ
sys_chdir is_directory none pwd = (2 ^ 32 - 1, pwd)
sys_chdir is_directory (some fp) pwd = if is_directory fp then (0, fp) else (2 ^ 32 - 2, pwd)

-- The length of the path, from a directory whose length is counted.
unfoldable pub path_size : (fuel fp sz : ℕ) → Tree → Option ℕ
path_size zero fp sz t = none
path_size (suc fuel) fp sz t =
    let up = t.parent fp in
    let rest = path_size fuel up (sz + (length (t.name up) + 1)) t in
    if up == t.f_root then some sz else rest

-- `memcpy` of a name
unfoldable pub put_name : List ℕ → ℕ → Bytes → Bytes
put_name [] a m = m
put_name (c ∷ cs) a m = put_name cs (a + 1) (update m a c)

-- The names from the last to the first, each behind a slash.
unfoldable pub put_path : (fuel fp sz u_buf : ℕ) → Tree → Bytes → Option Bytes
unfolding put_name
put_path zero fp sz u_buf t m = none
put_path (suc fuel) fp sz u_buf t m =
    let n = length (t.name fp) in
    let named = put_name (t.name fp) (u_buf + sz - n) m in
    let left = sz - (n + 1) in
    let rest = put_path fuel (t.parent fp) left u_buf t (update named (u_buf + left) 47) in
    if ltb 0 sz then rest else some m

unfoldable pub sys_pwd : (fuel u_buf pwd : ℕ) → Tree → Bytes → Option Bytes
unfolding path_size put_path
sys_pwd fuel u_buf pwd t m =
    let root = update (update m u_buf 47) (u_buf + 1) 0 in
    let path =
      path_size fuel pwd (length (t.name pwd) + 1) t
      >>= (λ sz. put_path fuel pwd sz u_buf t (update m (u_buf + sz) 0)) in
    if pwd == t.f_root then some root else path
