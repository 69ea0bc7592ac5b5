-- ===== src/Lifecycle.antt =====
-- The end of a process: sys_exit of kern/syscalls/sys_exit.c, sys_wait of kern/syscalls/sys_wait.c,
-- and sys_kill and sys_sigaction of kern/syscalls/syscalls.c. What sys_exit gives back to the kernel's
-- heap and the page tables it destroys are left out, the buffers of files apart.
pub mod Pages
pub mod Orphans
pub mod Waiting
mod Tests
use creeks_old.Base.{
  ℕ, zero, suc, ◌+◌, ◌-◌, ◌%◌, ◌^◌, Bool, Option, none, some, List, [], ◌∷◌, ◌==◌, ltb,
  if◌then◌else◌, update,
}
use creeks_old.Process.{Process, Kernel, State, zombie, unused, is_alive, is_zombie}
use creeks_old.Signal.{set_signal, clear_signal, is_signal, sigchld}
use creeks_old.Mm.Frames.{Bitmap, release_page_frame}
use creeks_old.Schedule.{Switched, kernel_mode, switch_to_task}
use creeks_old.Descriptors.{File, OpenFile}

abbrev pub at_current : (Process → Process) → Kernel → Kernel
at_current f k = record k { p_list = update k.p_list k.current (f (k.p_list k.current)) }

-- `n_proc--; current->state = -1; current->status = status;`
unfoldable pub become_zombie : ℕ → Kernel → Kernel
become_zombie status k =
    at_current (λ p. record p { state = zombie; status = status })
      (record k { n_proc = k.n_proc - 1 })

-- The frames of `pglist` are released.
unfoldable pub release_pages : List ℕ → Bitmap → Bitmap
unfolding release_page_frame
release_pages [] m = m
release_pages (p_addr ∷ pages) m = release_pages pages (release_page_frame p_addr m)

-- The chain of descriptors is released, with the addresses of the buffers that are given to
-- `kfree`; `none` is a null pointer.
unfoldable pub release_files : List OpenFile → (ℕ → File) → Option (List ℕ × (ℕ → File))
release_files [] files = some ([], files)
release_files (of ∷ next) files = elim of.file [
  | none ↦ none
  | some fp ↦
      let opened = ((files fp).opened + (2 ^ 32 - 1)) % 2 ^ 32 in
      let shared = release_files next (update files fp (record (files fp) { opened = opened })) in
      let last =
        release_files next (update files fp (record (files fp) { opened = opened; mmap = 0 })) in
      if opened == 0
      then elim last [ none ↦ none | some (freed, rest) ↦ some ((files fp).mmap ∷ freed, rest) ]
      else shared
]

-- `if (current->parent->state > 0) set_signal(&current->parent->signal, SIGCHLD);`
unfoldable pub notify_parent : Kernel → Kernel
notify_parent k =
    let parent = (k.p_list k.current).parent in
    let p = k.p_list parent in
    let told = update k.p_list parent (record p { signal = set_signal p.signal sigchld }) in
    if is_alive p.state then record k { p_list = told } else k

-- One child goes to process 0: `proc->parent = &p_list[0]; list_del(p); list_add(p, ...)`.
unfoldable pub adopt_one : ℕ → List ℕ → Kernel → Kernel
adopt_one c rest k =
    let moved = update k.p_list c (record (k.p_list c) { parent = 0 }) in
    let left = update moved k.current (record (moved k.current) { child = rest }) in
    record k { p_list = update left 0 (record (left 0) { child = c ∷ (left 0).child }) }

unfoldable pub adopt_all : List ℕ → Kernel → Kernel
unfolding adopt_one
adopt_all [] k = k
adopt_all (c ∷ rest) k = adopt_all rest (adopt_one c rest k)

-- What sys_exit does to the table of processes.
unfoldable pub exit_kernel : ℕ → Kernel → Kernel
unfolding become_zombie notify_parent adopt_all
exit_kernel status k =
    let told = notify_parent (become_zombie status k) in
    adopt_all ((told.p_list told.current).child) told

pub record Exited : Type 0 where
  pub bitmap : Bitmap
  pub files : ℕ → File
  pub freed : List ℕ
  pub switched : Switched

unfoldable pub sys_exit :
    ℕ → (pages : List ℕ) (fd : List OpenFile) → Bitmap → (ℕ → File) → Kernel → Option Exited
unfolding exit_kernel release_pages release_files
sys_exit status pages fd bitmap files k = elim (release_files fd files) [
  | none ↦ none
  | some (freed, rest) ↦ some (record {
    bitmap = release_pages pages bitmap;
    files = rest;
    freed = freed;
    switched = switch_to_task 0 kernel_mode (exit_kernel status k);
  })
]

unfoldable pub find_zombie : List ℕ → (ℕ → Process) → Option ℕ
find_zombie [] p_list = none
find_zombie (c ∷ cs) p_list =
    let rest = find_zombie cs p_list in if is_zombie (p_list c).state then some c else rest

-- `list_del` of a child
unfoldable pub remove : ℕ → List ℕ → List ℕ
remove c [] = []
remove c (x ∷ xs) = let rest = remove c xs in if x == c then xs else x ∷ rest

-- sys_wait waits for the signal, or answers; without a dead child the answer was never set.
pub data Waited : Type 0 where
  blocks unset : Waited
  waited : (pid status : ℕ) → Kernel → Waited

-- The dead child is let go.
unfoldable pub bury : ℕ → Kernel → Kernel
unfolding remove
bury c k =
    let freed = update k.p_list c (record (k.p_list c) { state = unused }) in
    let me = freed k.current in
    record k {
      p_list =
          update freed k.current
            (record me { child = remove c me.child; signal = clear_signal me.signal sigchld });
    }

unfoldable pub sys_wait : Kernel → Waited
unfolding find_zombie bury
sys_wait k =
    let me = k.p_list k.current in
    let found : Waited = elim (find_zombie me.child k.p_list) [
      | none ↦ unset
      | some c ↦ waited (k.p_list c).pid (k.p_list c).status (bury c k)
    ] in
    if is_signal me.signal sigchld then found else blocks

-- sys_kill: the answer, -1 as a 32-bit word, and the new state.
unfoldable pub sys_kill : (pid sig : ℕ) → Kernel → ℕ × Kernel
sys_kill pid sig k =
    let p = k.p_list pid in
    let sent = update k.p_list pid (record p { signal = set_signal p.signal sig }) in
    if is_alive p.state then (0, record k { p_list = sent }) else (2 ^ 32 - 1, k)

unfoldable pub sys_sigaction : (sig fn : ℕ) → Kernel → ℕ × Kernel
sys_sigaction sig fn k =
    let set = at_current (λ p. record p { sigfn = update p.sigfn sig fn }) k in
    (0, if ltb sig 32 then set else k)
