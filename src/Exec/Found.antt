-- ===== src/Exec/Found.antt =====
-- The program that sys_exec of kern/syscalls/sys_exec.c starts.
use creeks_old.Base.{ℕ, ◌-◌, ◌^◌, ◌<◌, ◌≡◌, ◌∙◌, refl, ap, Option, none, some, List, []}
use creeks_old.Base.Options.{◌>>=◌}
use creeks_old.Disk.{Port}
use creeks_old.Ext2.{Disk, ext2_read_inode}
use creeks_old.Files.{Cache, ext2, with_inode}
use creeks_old.Files.Components.{components}
use creeks_old.Files.Listing.{Entry}
use creeks_old.Files.Cached.{IsCache, inode_now_lem}
use creeks_old.Files.Directory.{HasListing, Kept, with_inode-Kept}
use creeks_old.Files.Resolve.{Place, resolve, IsAt, IsAt-inum, Found}
use creeks_old.Files.Lookup.{start_place, path_to_file-resolve}
use creeks_old.Tasks.{Tasks, load_task}
use creeks_old.Tasks.Family.{IsFamily}
use creeks_old.Tasks.Started.{IsAnswer, HasRoom, load_task-IsAnswer}
use creeks_old.Exec.{Executed, load_found, sys_exec}

module _ (port : Port) (hd : Disk) (file cr3 kstack : ℕ) (dirs : ℕ → List Entry) where
  -- What is done for the place that a path leads to.
  abbrev pub Executes : List (List ℕ) → Cache → Tasks → Option Place → Executed → Type 0
  Executes argv c st none (r, (c', st')) = (r ≡ 2 ^ 32 - 1) × (st' ≡ st)
  Executes argv c st (some (i, above)) (r, (c', st')) =
      (load_task port hd (ext2_read_inode port hd i) argv file cr3 kstack st ≡ some (r, st'))
      × IsAnswer port hd (ext2_read_inode port hd i) argv file cr3 kstack st (r, st')

  load_found-Executes :
      (argv : List (List ℕ)) (c d : Cache) (st : Tasks) (r : Option ℕ) (o : Option Place)
      → IsFamily st.kernel.p_list
      → HasRoom st.kernel.p_list
      → Kept (ext2 port hd) dirs c d
      → Found (ext2 port hd) dirs d r o
      → (a : Executed) × ((load_found port hd file cr3 kstack argv st (r, d) ≡ some a)
          × (IsCache (ext2 port hd) dirs (a.1.0) × Executes argv c st o a))
  unfolding load_found
  load_found-Executes argv c d st r none family has_room kept found =
      rw found ((2 ^ 32 - 1, (d, st)), (refl, (kept.cache, (refl, refl))))
  load_found-Executes argv c d st r (some (i, above)) family has_room kept (f, (e, (h, at))) =
      let fs = ext2 port hd in
      let inode =
        inode_now_lem fs dirs d f (d.files f) (kept.cache f h)
        ∙ ap (ext2_read_inode port hd) (IsAt-inum fs dirs d f i above at) in
      let ((pid, st'), (loads, answer)) =
        load_task-IsAnswer port hd (ext2_read_inode port hd i) argv file cr3 kstack st family
          has_room in
      let runs = ap (λ n. load_task port hd n argv file cr3 kstack st) inode ∙ loads in
      rw e (
        (pid, (with_inode fs f d, st')),
        (
          ap (λ (o : Option (ℕ × Tasks)). o >>= (λ r. some (r.0, (with_inode fs f d, r.1)))) runs,
          ((with_inode-Kept fs dirs d f kept.cache h).cache, (loads, answer)),
        ),
      )

  -- On a disk without sockets and block devices whose directories have no unused entries, from a cache
  -- and a table of processes that are in order, with one of the slots 1 to 32 free, sys_exec ends and
  -- keeps both in order. When the path leads to no file on the disk, the answer is -1 and no process changes. When it
  -- leads to one, the answer is load_task's for the inode of that file, so either 0 or the number of a
  -- process that was started from it.
  pub sys_exec-Executes :
      (entries f_root root i : ℕ) (above path : List ℕ) (argv : List (List ℕ)) (c : Cache)
      (st : Tasks)
      → HasListing (ext2 port hd) entries dirs
      → IsCache (ext2 port hd) dirs c
      → IsFamily st.kernel.p_list
      → HasRoom st.kernel.p_list
      → f_root < c.new
      → st.pwd st.kernel.current < c.new
      → IsAt (ext2 port hd) dirs c f_root root []
      → IsAt (ext2 port hd) dirs c (st.pwd st.kernel.current) i above
      → (a : Executed) × ((sys_exec port hd file cr3 kstack entries f_root path argv c st ≡ some a)
          × (IsCache (ext2 port hd) dirs (a.1.0)
              × Executes argv c st
                  (resolve
                    (ext2 port hd)
                    dirs
                    (components path)
                    (start_place (root, []) (i, above) path))
                  a))
  unfolding sys_exec
  sys_exec-Executes entries f_root root i above path argv c st listed ok family has_room h h' at
        at' =
      let fs = ext2 port hd in
      let (r, (d, (e, (kept, found)))) =
        path_to_file-resolve fs dirs entries listed c f_root (st.pwd st.kernel.current) root i above
          path ok h h' at at' in
      let (a, (runs, result)) = load_found-Executes argv c d st r _ family has_room kept found in
      (
        a,
        (
          ap (λ (o : Option (Option ℕ × Cache)). o >>= load_found port hd file cr3 kstack argv st) e
              ∙ runs,
          result,
        ),
      )
