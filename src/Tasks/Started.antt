-- ===== src/Tasks/Started.antt =====
-- The table of processes after `load_task` of kern/process.c.
use creeks_old.Base.{
  ℕ, ◌+◌, ◌<◌, ◌≡◌, ◌≢◌, ◌∙◌, ◌⊎◌, refl, sym, ap, subst, inl, inr, ◌≤◌, ◌*◌, length, Bool-cases,
  false, Option, none, some, List, [], ◌∷◌, ◌==◌, eq_of_==, if◌then◌else◌, update_self, at_update,
  arith,
}
use mathlib.Core.Option.{some-injective}
use creeks_old.Disk.{Port}
use creeks_old.Ext2.{Disk, Inode, ext2_read_file}
use creeks_old.Libc.{Bytes}
use creeks_old.Elf.{user_stack, Loaded}
use creeks_old.Elf.Kept.{ZonesSet, load_elf-ZonesSet}
use creeks_old.Process.{Regs, ready, max_pid, Process, Kernel}
use creeks_old.Schedule.{new_pid}
use creeks_old.Schedule.Slots.{Taken, slot, past_end, new_pid-Taken, taken_at}
use creeks_old.Tasks.Strings.{room}
use creeks_old.Tasks.Stack.{HasArguments, user_stack_of-HasArguments}
use creeks_old.Tasks.Family.{
  IsFamily, give_up-IsFamily, same_place, same_regs, children_of_parent, states_elsewhere,
  add_process-IsFamily,
}
use creeks_old.Tasks.{
  Tasks, start_process, ArgStack, user_stack_of, parent_of, add_process, give_up, load_file,
  load_into, load_numbered, load_task,
}

-- A slot of the table, from 1 to 32, is free.
abbrev pub HasRoom : (ℕ → Process) → Type 0
HasRoom p_list = (j : ℕ) × ((0 < j) × ((j ≤ max_pid) × (taken_at p_list j ≡ false)))

-- The number that is taken is that of a free slot of the table, and not that of process 0.
free_number :
    (p_list : ℕ → Process) (pid : ℕ) (o : Option (Option ℕ))
    → HasRoom p_list
    → Taken p_list o
    → o ≡ some (some pid)
    → (0 < pid) × ((pid ≤ max_pid) × (taken_at p_list pid ≡ false))
free_number p_list pid _ has_room (slot {r} pos le free skipped) e =
    let at : r ≡ pid = some-injective r pid (some-injective (some r) (some pid) e) in
    subst (λ x. (0 < x) × ((x ≤ max_pid) × (taken_at p_list x ≡ false))) at (pos, (le, free))
free_number p_list pid _ (j, (pos, (le, free))) (past_end all) e =
    let no = sym (all j pos le) ∙ free in ground (arith, no)

-- With a free slot a number is found.
some_number :
    (p_list : ℕ → Process) (o : Option (Option ℕ)) → HasRoom p_list → Taken p_list o → o ≢ some none
some_number p_list _ has_room (slot {r} pos le free skipped) e =
    let no = some-injective (some r) none e in ground (arith, no)
some_number p_list _ (j, (pos, (le, free))) (past_end all) e =
    let no = sym (all j pos le) ∙ free in ground (arith, no)

argued :
    (argv : List (List ℕ)) (s : List ℕ) (ss : List (List ℕ))
    → argv ≡ s ∷ ss
    → (m : Bytes) → room argv + 4 * length argv + 80 ≤ user_stack
    → HasArguments argv (user_stack_of argv m).stackp (user_stack_of argv m).memory
argued argv s ss e m =
    subst
      (λ a.
        room a + 4 * length a + 80 ≤ user_stack
        → HasArguments a (user_stack_of a m).stackp (user_stack_of a m).memory)
      (sym e) (λ fits. (user_stack_of-HasArguments s ss m fits).0)

number_or_none :
    (p_list : ℕ → Process) (o : Option (Option ℕ)) → Taken p_list o → (r : Option ℕ) × (o ≡ some r)
number_or_none p_list _ (slot {r} pos le free skipped) = (some r, refl)
number_or_none p_list _ (past_end all) = (if taken_at p_list 33 then none else some 33, refl)

parent_of_apart :
    (k : Kernel) (pid : ℕ) → 0 < pid → taken_at k.p_list pid ≡ false → parent_of k ≢ pid
unfolding parent_of
parent_of_apart k pid h free e = elim (Bool-cases (taken_at k.p_list k.current)) [
  | inl runs ↦
      let at : k.current ≡ pid = rw runs at (e) in
      let no = sym runs ∙ (ap (taken_at k.p_list) at ∙ free) in ground (arith, no)
  | inr idle ↦ let zero_pid : 0 ≡ pid = rw idle at (e) in omega (arith, zero_pid, h)
]

module _ (port : Port) (hd : Disk) (inode : Inode) (argv : List (List ℕ))
    (file cr3 kstack : ℕ) where
  -- No process is started: the answer is 0, since load_elf gives no entry point of the file for the
  -- free slot, and all processes are in their states.
  pub record NotStarted (st st' : Tasks) (r : ℕ) : Type 0 where
    pub answer : r ≡ 0
    pub failed :
        (pid : ℕ) × ((0 < pid)
          × ((pid ≤ max_pid)
              × ((taken_at st.kernel.p_list pid ≡ false)
                  × ((load_file port hd inode argv file cr3 kstack pid st).entry ≡ 0))))
    pub states : (c : ℕ) → (st'.kernel.p_list c).state ≡ (st.kernel.p_list c).state

  -- The process `pid` is started.
  pub record IsStarted (st st' : Tasks) (pid : ℕ) : Type 0 where
    pub positive : 0 < pid
    pub in_table : pid ≤ max_pid
    pub was_free : taken_at st.kernel.p_list pid ≡ false
    pub state : (st'.kernel.p_list pid).state ≡ ready
    pub parent : (st'.kernel.p_list pid).parent ≡ parent_of st.kernel
    pub eip :
        (st'.kernel.p_list pid).regs.eip
        ≡ (load_file port hd inode argv file cr3 kstack pid st).entry
    pub esp :
        (st'.kernel.p_list pid).regs.esp
        ≡ (user_stack_of argv (load_file port hd inode argv file cr3 kstack pid st).memory).stackp
    pub arguments :
        (s : List ℕ) (ss : List (List ℕ))
        → argv ≡ s ∷ ss
        → room argv + 4 * length argv + 80 ≤ user_stack
        → HasArguments argv (st'.kernel.p_list pid).regs.esp st'.memory
    pub added :
        (st'.kernel.p_list (parent_of st.kernel)).child
        ≡ pid ∷ (st.kernel.p_list (parent_of st.kernel)).child
    pub others : (c : ℕ) → c ≢ pid → (st'.kernel.p_list c).state ≡ (st.kernel.p_list c).state
    pub counted : st'.kernel.n_proc ≡ st.kernel.n_proc + 1
    pub directory : st'.pwd pid ≡ st.pwd st.kernel.current
    pub no_files : st'.fd pid ≡ []

  abbrev pub IsAnswer : Tasks → ℕ × Tasks → Type 0
  IsAnswer st (r, st') = IsFamily st'.kernel.p_list × (NotStarted st st' r ⊎ IsStarted st st' r)

  load_file-ZonesSet :
      (st : Tasks) (pid : ℕ)
      → ZonesSet
          (record (st.kernel.p_list pid) { pid = pid })
          (load_file port hd inode argv file cr3 kstack pid st).process
  unfolding load_file
  load_file-ZonesSet st pid =
      load_elf-ZonesSet file (ext2_read_file port hd inode file st.memory).memory
        (record (st.kernel.p_list pid) { pid = pid })

  module _ (st : Tasks) (pid : ℕ) (family : IsFamily st.kernel.p_list) (positive : 0 < pid)
      (in_table : pid ≤ max_pid) (free : taken_at st.kernel.p_list pid ≡ false) where
    abbrev loaded : Loaded
    loaded = load_file port hd inode argv file cr3 kstack pid st

    zones : ZonesSet (record (st.kernel.p_list pid) { pid = pid }) loaded.process
    zones = load_file-ZonesSet st pid

    abbrev stack : ArgStack
    stack = user_stack_of argv loaded.memory

    abbrev p : Process
    p = start_process stack.stackp loaded.entry cr3 kstack (parent_of st.kernel) loaded.process

    apart : parent_of st.kernel ≢ pid
    apart = parent_of_apart st.kernel pid positive free

    abandoned :
        (c : ℕ)
        → ((give_up pid loaded.process st.kernel).p_list c).state ≡ (st.kernel.p_list c).state
    unfolding give_up
    abandoned c =
        at_update (λ x v. v.state ≡ (st.kernel.p_list x).state) st.kernel.p_list pid loaded.process
          zones.state c (λ ne. refl)

    load_into-IsAnswer : IsAnswer st (load_into port hd inode argv file cr3 kstack pid st)
    unfolding load_into start_process add_process
    load_into-IsAnswer =
        let k = st.kernel in
        let at = update_self k.p_list pid p in
        let (parent, state) = same_place k pid p free family zones.pid refl refl apart pid in
        elim (Bool-cases (loaded.entry == 0)) [
          | inl failed ↦ rw failed (
            give_up-IsFamily k pid loaded.process free family zones,
            inl (record {
              answer = refl;
              failed = (pid, (positive, (in_table, (free, eq_of_== loaded.entry 0 failed))));
              states = abandoned;
            }),
          )
          | inr done ↦ rw done (
            add_process-IsFamily k pid p free family zones.pid refl refl apart,
            inr (record {
              positive = positive;
              in_table = in_table;
              was_free = free;
              state = state ∙ ap (λ (v : Process). v.state) at;
              parent = parent ∙ ap (λ (v : Process). v.parent) at;
              eip =
                  ap (λ (r : Regs). r.eip)
                    (same_regs k pid p free family zones.pid refl refl apart pid)
                  ∙ ap (λ (v : Process). v.regs.eip) at;
              esp =
                  ap (λ (r : Regs). r.esp)
                    (same_regs k pid p free family zones.pid refl refl apart pid)
                  ∙ ap (λ (v : Process). v.regs.esp) at;
              arguments = λ s ss e fits.
                  subst (λ x. HasArguments argv x stack.memory)
                    (sym (
                      ap (λ (r : Regs). r.esp)
                        (same_regs k pid p free family zones.pid refl refl apart pid)
                      ∙ ap (λ (v : Process). v.regs.esp) at))
                    (argued argv s ss e loaded.memory fits);
              added = children_of_parent k pid p free family zones.pid refl refl apart;
              others = states_elsewhere k pid p free family zones.pid refl refl apart;
              counted = refl;
              directory = update_self st.pwd pid (st.pwd k.current);
              no_files = update_self st.fd pid [];
            }),
          )
        ]

  load_numbered-IsAnswer :
      (st : Tasks)
      → IsFamily st.kernel.p_list
      → HasRoom st.kernel.p_list
      → (o : Option ℕ) → new_pid st.kernel.p_list ≡ some o
      → (a : ℕ × Tasks) × ((load_numbered port hd inode argv file cr3 kstack (some o) st ≡ some a)
          × IsAnswer st a)
  unfolding load_numbered
  load_numbered-IsAnswer st family has_room none e = absurd (
      some_number st.kernel.p_list (new_pid st.kernel.p_list) has_room
        (new_pid-Taken st.kernel.p_list) e)
  load_numbered-IsAnswer st family has_room (some pid) e =
      let (positive, (in_table, free)) =
        free_number st.kernel.p_list pid (new_pid st.kernel.p_list) has_room
          (new_pid-Taken st.kernel.p_list) e in
      (
        load_into port hd inode argv file cr3 kstack pid st,
        (refl, load_into-IsAnswer st pid family positive in_table free),
      )

  -- While one of the slots 1 to 32 is free, load_task ends, and keeps the table of processes in order:
  -- each process has its number, and the lists of children agree with the parents. Either the answer is
  -- 0, load_elf gives no entry point for the file, and all processes are in the states they had, or it is the number, from 1 to 32, of a slot that
  -- was free and now holds a ready process at the entry point that load_elf gives, with no open file,
  -- the current directory of the process that loads it, and that process (or the process 0, if none
  -- runs) as its parent, while the others keep their states; its stack pointer is the one below the
  -- arguments, which stand there as main expects them if there are any and they have room.
  pub load_task-IsAnswer :
      (st : Tasks)
      → IsFamily st.kernel.p_list
      → HasRoom st.kernel.p_list
      → (a : ℕ × Tasks) × ((load_task port hd inode argv file cr3 kstack st ≡ some a)
          × IsAnswer st a)
  unfolding load_task
  load_task-IsAnswer st family has_room =
      let (o, e) =
        number_or_none st.kernel.p_list (new_pid st.kernel.p_list)
          (new_pid-Taken st.kernel.p_list) in
      let (a, (r, answer)) = load_numbered-IsAnswer st family has_room o e in
      (a, (ap (λ n. load_numbered port hd inode argv file cr3 kstack n st) e ∙ r, answer))
