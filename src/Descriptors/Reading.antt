-- ===== src/Descriptors/Reading.antt =====
-- `sys_read` of kern/syscalls/syscalls.c: the count, the bytes, and reading on.
use creeks_old.Base.{
  ℕ, zero, suc, ◌+◌, ◌-◌, ◌^◌, ◌≤◌, ◌<◌, ◌≡◌, ◌∙◌, refl, sym, ap, ap₂, some, List, [], ◌∷◌, ltb,
  if◌then◌else◌, arith, update,
}
use creeks_old.Libc.{Bytes, memcpy}
use creeks_old.Descriptors.{
  OpenFile, Files, Walk, found, find_open, set_open, Answer, answers, read_count, read_open,
  on_file, sys_read,
}

-- What is left of a file of `size` bytes at `ptr`, at most `n`.
unfoldable pub available : (ptr n size : ℕ) → ℕ
available ptr n size = if ltb (size - ptr) n then size - ptr else n

read_count-available :
    (ptr n size : ℕ)
    → ptr ≤ size
    → size < 2 ^ 32
    → ptr + n < 2 ^ 32
    → read_count ptr n size ≡ available ptr n size
unfolding read_count available
read_count-available ptr n size p s w = ground arith

pub find_open-set_open :
    (fd : ℕ) (of of' : OpenFile) (chain : List OpenFile)
    → find_open fd chain ≡ found of
    → find_open fd (set_open fd of' chain) ≡ found of'
unfolding find_open set_open
find_open-set_open fd of of' [] e = absurd (ground (arith, e))
find_open-set_open zero of of' (x ∷ next) e = refl
find_open-set_open (suc fd) of of' (x ∷ []) e = absurd (ground (arith, e))
find_open-set_open (suc zero) of of' (x ∷ (y ∷ next)) e = refl
find_open-set_open (suc (suc fd)) of of' (x ∷ (y ∷ next)) e =
    find_open-set_open (suc fd) of of' (y ∷ next) e

set_open_twice :
    (fd : ℕ) (x y : OpenFile) (chain : List OpenFile)
    → set_open fd x (set_open fd y chain) ≡ set_open fd x chain
unfolding set_open
set_open_twice fd x y [] = refl
set_open_twice zero x y (z ∷ next) = refl
set_open_twice (suc fd) x y (z ∷ next) = ap (λ t. z ∷ t) (set_open_twice fd x y next)

memcpy_add :
    (a b dst src : ℕ) (m : Bytes)
    → memcpy (a + b) dst src m ≡ memcpy b (dst + a) (src + a) (memcpy a dst src m)
unfolding memcpy
memcpy_add zero b dst src m =
    let d : dst + 0 ≡ dst = omega arith in
    let s : src + 0 ≡ src = omega arith in let n : 0 + b ≡ b = omega arith in rw (d, s, n) refl
memcpy_add (suc a) b dst src m =
    let d : dst + suc a ≡ suc dst + a = omega arith in
    let s : src + suc a ≡ suc src + a = omega arith in
    let n : suc a + b ≡ suc (a + b) = omega arith in
    rw (d, s, n) (memcpy_add a b (suc dst) (suc src) (update m dst (m src)))

-- The descriptor `fd` is open on the file `fp`, whose inode was read, and stands within its bytes.
pub record IsReadable (fd fp size : ℕ) (of : OpenFile) (st : Files) : Type 0 where
  pub descriptor : find_open fd st.fd ≡ found of
  pub file : of.file ≡ some fp
  pub inode : (st.files fp).inode ≡ some size
  pub inside : of.ptr ≤ size
  pub word : size < 2 ^ 32

-- The state after reading `n` bytes.
unfoldable pub after_read : (fd fp u_buf n : ℕ) → OpenFile → Files → Files
after_read fd fp u_buf n of st = record st {
  fd = set_open fd (record of { ptr = of.ptr + n }) st.fd;
  memory = memcpy n u_buf ((st.files fp).mmap + of.ptr) st.memory;
}

pub found_file_lem :
    (call : OpenFile → ℕ → Answer) (walk : Walk) (of : OpenFile) (fp : ℕ)
    → walk ≡ found of
    → of.file ≡ some fp
    → on_file call walk ≡ call of fp
unfolding on_file
found_file_lem call walk of fp e f = ap (on_file call) e ∙ ground (arith, f)

read_open_at :
    (fd fp size u_buf bufsize : ℕ) (of : OpenFile) (st : Files)
    → (st.files fp).inode ≡ some size
    → read_open fd u_buf bufsize of fp st
      ≡ answers
          (read_count of.ptr bufsize size)
          (after_read fd fp u_buf (read_count of.ptr bufsize size) of st)
unfolding read_open after_read
read_open_at fd fp size u_buf bufsize of st e = ground (arith, e)

read_step :
    (fd fp size u_buf bufsize : ℕ) (of : OpenFile) (st : Files)
    → IsReadable fd fp size of st
    → of.ptr + bufsize < 2 ^ 32
    → sys_read fd u_buf bufsize st
      ≡ answers
          (available of.ptr bufsize size)
          (after_read fd fp u_buf (available of.ptr bufsize size) of st)
unfolding sys_read
read_step fd fp size u_buf bufsize of st r w =
    found_file_lem (λ o f. read_open fd u_buf bufsize o f st) (find_open fd st.fd) of fp
      r.descriptor r.file
    ∙ (read_open_at fd fp size u_buf bufsize of st r.inode
        ∙ ap (λ n. answers n (after_read fd fp u_buf n of st))
            (read_count-available of.ptr bufsize size r.inside r.word w))

available-bounded : (ptr n size : ℕ) → ptr ≤ size → ptr + available ptr n size ≤ size
unfolding available
available-bounded ptr n size h = ground arith

-- The descriptor as it stands behind the bytes read.
abbrev moved : OpenFile → ℕ → OpenFile
moved of n = record of { ptr = of.ptr + n }

read_again :
    (fd fp size u_buf n : ℕ) (of : OpenFile) (st : Files)
    → IsReadable fd fp size of st
    → of.ptr + n ≤ size
    → IsReadable fd fp size (moved of n) (after_read fd fp u_buf n of st)
unfolding after_read
read_again fd fp size u_buf n of st r h = record {
  descriptor = find_open-set_open fd of (record of { ptr = of.ptr + n }) st.fd r.descriptor;
  file = r.file;
  inode = r.inode;
  inside = h;
  word = r.word;
}

after_twice :
    (fd fp u_buf a b : ℕ) (of : OpenFile) (st : Files)
    → after_read fd fp (u_buf + a) b (moved of a) (after_read fd fp u_buf a of st)
      ≡ after_read fd fp u_buf (a + b) of st
unfolding after_read
after_twice fd fp u_buf a b of st =
    let p : of.ptr + a + b ≡ of.ptr + (a + b) = omega arith in
    let s : (st.files fp).mmap + (of.ptr + a) ≡ (st.files fp).mmap + of.ptr + a = omega arith in
    ap₂ (λ chain m. record st { fd = chain; memory = m })
      (set_open_twice fd _ _ st.fd ∙ ap (λ q. set_open fd (record of { ptr = q }) st.fd) p)
      (ap (λ q. memcpy b (u_buf + a) q (memcpy a u_buf ((st.files fp).mmap + of.ptr) st.memory)) s
        ∙ sym (memcpy_add a b u_buf ((st.files fp).mmap + of.ptr) st.memory))

available_sum :
    (ptr n n' size : ℕ)
    → available ptr n size + available (ptr + available ptr n size) n' size
      ≡ available ptr (n + n') size
unfolding available
available_sum ptr n n' size = ground arith

-- Reading on: after a read of at most n bytes and one of at most n' more behind them, the counts,
-- the buffer, the position and the rest of the state are the ones of a single read of n + n' bytes;
-- together the two give what is left of the file, at most n + n'. The descriptor is open on a file
-- whose inode was read and stands within it, and no number leaves 32 bits.
pub sys_read-sys_read :
    (fd fp size u_buf n n' : ℕ) (of : OpenFile) (st : Files)
    → IsReadable fd fp size of st
    → size + n + n' < 2 ^ 32
    → (a : ℕ) × ((b : ℕ) × ((st1 : Files) × ((st2 : Files) × ((sys_read fd u_buf n st
                ≡ answers a st1)
              × ((sys_read fd (u_buf + a) n' st1 ≡ answers b st2)
                  × ((sys_read fd u_buf (n + n') st ≡ answers (a + b) st2)
                      × (a + b ≡ available of.ptr (n + n') size)))))))
sys_read-sys_read fd fp size u_buf n n' of st r w =
    let a = available of.ptr n size in
    let inside = available-bounded of.ptr n size r.inside in
    let st1 = after_read fd fp u_buf a of st in
    let b = available (of.ptr + a) n' size in
    let r1 = read_again fd fp size u_buf a of st r inside in
    let sum : a + b ≡ available of.ptr (n + n') size = available_sum of.ptr n n' size in
    (
      a,
      (
        b,
        (
          st1,
          (
            after_read fd fp u_buf (a + b) of st,
            (
              read_step fd fp size u_buf n of st r (omega (arith, r.inside)),
              (
                read_step fd fp size (u_buf + a) n' (moved of a) st1 r1 (omega (arith, inside))
                    ∙ ap (answers b) (after_twice fd fp u_buf a b of st),
                (
                  read_step fd fp size u_buf (n + n') of st r (omega (arith, r.inside))
                      ∙ ap (λ c. answers c (after_read fd fp u_buf c of st)) (sym sum),
                  sum,
                ),
              ),
            ),
          ),
        ),
      ),
    )
