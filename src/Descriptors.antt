-- ===== src/Descriptors.antt =====
-- The open files of a process: sys_open of kern/syscalls/sys_open.c behind `path_to_file`, and
-- sys_read and sys_close of kern/syscalls/syscalls.c. Files are known by their numbers, the chain of
-- descriptors that starts at `current->fd` is a list.
pub mod Lowest
pub mod Reading
pub mod Closing
mod Tests
use creeks_old.Base.{
  ℕ, zero, suc, ◌+◌, ◌-◌, ◌%◌, ◌^◌, Bool, Option, none, some, List, [], ◌∷◌, ltb, if◌then◌else◌,
  update,
}
use creeks_old.Libc.{Bytes, memcpy}

-- `struct file`, as far as descriptors use it: the size of the inode once it is read, the address of
-- the buffer, 0 for none.
pub record File : Type 0 where
  pub inum : ℕ
  pub inode : Option ℕ
  pub mmap : ℕ
  pub opened : ℕ

-- `struct open_file`
pub record OpenFile : Type 0 where
  pub file : Option ℕ
  pub ptr : ℕ

pub record Files : Type 0 where
  pub files : ℕ → File
  pub fd : List OpenFile
  pub memory : Bytes

-- A new or reused descriptor.
abbrev pub at_start : ℕ → OpenFile
at_start fp = record { file = some fp; ptr = 0 }

-- The search for a free descriptor: its number and the changed chain.
unfoldable pub take_descriptor : ℕ → List OpenFile → ℕ × List OpenFile
take_descriptor fp [] = (0, at_start fp ∷ [])
take_descriptor fp (of ∷ next) =
    let rest = take_descriptor fp next in
    elim of.file [ none ↦ (0, at_start fp ∷ next) | some f ↦ (suc (rest.0), of ∷ rest.1) ]

-- `sys_open` of the file that `path_to_file` found. The size of an inode and the address of a file's
-- buffer come from kern/ext2.c.
unfoldable pub sys_open :
    (inode_size : ℕ → ℕ) (read_file : ℕ → ℕ) → Option ℕ → Files → Option ℕ × Files
unfolding take_descriptor
sys_open inode_size read_file none st = (none, st)
sys_open inode_size read_file (some fp) st =
    let file = st.files fp in
    let size : ℕ = elim file.inode [ none ↦ inode_size file.inum | some size ↦ size ] in
    let open_now = record file {
      inode = some size;
      mmap = read_file file.inum;
      opened = file.opened + 1;
    } in
    let (fd, chain) = take_descriptor fp st.fd in
    (some fd, record st { files = update st.files fp open_now; fd = chain })

-- How the walk along the chain ends: at a descriptor, behind the last one, or by reading through a
-- null pointer.
pub data Walk : Type 0 where
  faults missing : Walk
  found : OpenFile → Walk

-- `of = current->fd; while (fd) { of = of->next; if (of == 0) ...; fd--; }` and the use of `of`.
unfoldable pub find_open : ℕ → List OpenFile → Walk
find_open fd [] = faults
find_open zero (of ∷ next) = found of
find_open (suc fd) (of ∷ []) = missing
find_open (suc fd) (of ∷ (of' ∷ next)) = find_open fd (of' ∷ next)

unfoldable pub set_open : ℕ → OpenFile → List OpenFile → List OpenFile
set_open fd of [] = []
set_open zero of (old ∷ next) = of ∷ next
set_open (suc fd) of (old ∷ next) = old ∷ set_open fd of next

-- The answer of a call on a descriptor.
pub data Answer : Type 0 where
  null_pointer invalid : Answer
  answers : (eax : ℕ) → Files → Answer

-- The bytes that are read: `bufsize`, or what is left of the file.
unfoldable pub read_count : (ptr bufsize size : ℕ) → ℕ
read_count ptr bufsize size =
    if ltb size ((ptr + bufsize) % 2 ^ 32) then (size + 2 ^ 32 - ptr) % 2 ^ 32 else bufsize

-- The rest of `sys_read` at a descriptor of an open file.
unfoldable pub read_open : (fd u_buf bufsize : ℕ) → OpenFile → ℕ → Files → Answer
unfolding read_count memcpy set_open
read_open fd u_buf bufsize of fp st = elim (st.files fp).inode [
  | none ↦ null_pointer
  | some size ↦
      let n = read_count of.ptr bufsize size in
      answers n (record st {
        fd = set_open fd (record of { ptr = of.ptr + n }) st.fd;
        memory = memcpy n u_buf ((st.files fp).mmap + of.ptr) st.memory;
      })
]

-- A call on the open file of a descriptor.
unfoldable pub on_file : (OpenFile → ℕ → Answer) → Walk → Answer
on_file call faults = null_pointer
on_file call missing = invalid
on_file call (found of) = elim of.file [ none ↦ null_pointer | some fp ↦ call of fp ]

unfoldable pub sys_read : (fd u_buf bufsize : ℕ) → Files → Answer
unfolding on_file read_open find_open
sys_read fd u_buf bufsize st =
    on_file (λ of fp. read_open fd u_buf bufsize of fp st) (find_open fd st.fd)

-- The rest of `sys_close`; the answer carries the address that is given to `kfree`.
unfoldable pub close_open : ℕ → ℕ → Files → Answer
unfolding set_open
close_open fd fp st = answers ((st.files fp).mmap) (record st {
  files = update st.files fp (record (st.files fp) { mmap = 0 });
  fd = set_open fd (record { file = none; ptr = 0 }) st.fd;
})

unfoldable pub sys_close : ℕ → Files → Answer
unfolding on_file close_open find_open
sys_close fd st = on_file (λ of fp. close_open fd fp st) (find_open fd st.fd)
