-- ===== src/Exec.antt =====
-- Starting a program by its path: sys_exec of kern/syscalls/sys_exec.c, over the cache of files and
-- the loading of tasks. Interrupts are off while a task is loaded.
pub mod Found
mod Tests
use creeks_old.Base.{ℕ, suc, ◌-◌, ◌^◌, Option, none, some, List, length, update}
use creeks_old.Base.Options.{◌>>=◌}
use creeks_old.Disk.{Port}
use creeks_old.Ext2.{Disk, Inode}
use creeks_old.Files.{CachedFile, Cache, ext2, inode_now, with_inode, path_to_file}
use creeks_old.Process.{Kernel}
use creeks_old.Tasks.{Tasks, load_task}

-- The answer, the cache and the tasks.
abbrev pub Executed : Type 0
Executed = ℕ × (Cache × Tasks)

module _ (port : Port) (hd : Disk) (file cr3 kstack : ℕ) where
  -- What follows the lookup of the path; `argc` is the number of arguments. The answer -1 is a word.
  unfoldable pub load_found : List (List ℕ) → Tasks → Option ℕ × Cache → Option Executed
  unfolding with_inode inode_now load_task
  load_found argv st (none, c) = some (2 ^ 32 - 1, (c, st))
  load_found argv st (some fp, c) =
      load_task port hd (inode_now (ext2 port hd) (c.files fp)) argv file cr3 kstack st
      >>= (λ r. some (r.0, (with_inode (ext2 port hd) fp c, r.1)))

  -- `entries` is the fuel for the entries of a directory; `none` is a loop that does not end.
  unfoldable pub sys_exec :
      (entries f_root : ℕ) (path : List ℕ) → List (List ℕ) → Cache → Tasks → Option Executed
  unfolding path_to_file load_found
  sys_exec entries f_root path argv c st =
      path_to_file (ext2 port hd) entries (length path) f_root (st.pwd st.kernel.current) path c
      >>= load_found argv st
