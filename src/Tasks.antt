-- ===== src/Tasks.antt =====
-- Loading of tasks, `load_task` of kern/process.c, over the file system, the ELF loader and the choice
-- of a number. What kern/mm.c gives it, the physical address of the page directory and the kernel's
-- stack, and the addresses of its buffers are arguments; `memory` is the address space that the new
-- process and the kernel share while it is loaded. The copies of the arguments are values.
pub mod Words
pub mod Strings
pub mod Stack
pub mod Family
pub mod Started
pub mod Tests
use creeks_old.Base.{
  ℕ, zero, suc, ◌+◌, ◌-◌, ◌*◌, ◌/◌, ◌%◌, ◌^◌, Bool, false, Option, none, some, List, [], ◌∷◌,
  length, ◌==◌, if◌then◌else◌, update,
}
use creeks_old.Libc.{Bytes}
use creeks_old.Disk.{Port}
use creeks_old.Ext2.{Disk, Inode, Copy, ext2_read_file}
use creeks_old.Elf.{user_stack, Loaded, load_elf}
use creeks_old.Process.{Regs, KStack, State, unused, ready, is_taken, Process, Kernel}
use creeks_old.Schedule.{new_pid}
use creeks_old.Console.{Vconsole}
use creeks_old.Descriptors.{OpenFile}

-- The table of processes with the fields of `struct process` that it leaves out, `current_term` and
-- the memory.
pub record Tasks : Type 0 where
  pub kernel : Kernel
  pub pwd : ℕ → ℕ
  pub fd : ℕ → List OpenFile
  pub consoles : ℕ → Vconsole
  pub current_term : ℕ
  pub memory : Bytes

-- A 32-bit word is written.
unfoldable pub put_u32 : (a w : ℕ) → Bytes → Bytes
put_u32 a w m =
    update
      (update (update (update m a (w % 0x100)) (a + 1) (w / 2 ^ 8 % 0x100)) (a + 2)
        (w / 2 ^ 16 % 0x100))
      (a + 3) (w / 2 ^ 24 % 0x100)

-- `strcpy` of a string to an address.
unfoldable pub put_string : List ℕ → (a : ℕ) → Bytes → Bytes
put_string [] a m = update m a 0
put_string (c ∷ cs) a m = put_string cs (a + 1) (update m a c)

-- `stackp`, the memory and `uparam`.
pub record ArgStack : Type 0 where
  pub stackp : ℕ
  pub memory : Bytes
  pub uparam : List ℕ

-- The loop that copies the arguments below `stackp`.
unfoldable pub put_strings : List (List ℕ) → (stackp : ℕ) → Bytes → ArgStack
unfolding put_string
put_strings [] stackp m = record { stackp = stackp; memory = m; uparam = [] }
put_strings (s ∷ ss) stackp m =
    let at = stackp - (length s + 1) in
    let rest = put_strings ss at (put_string s at m) in record rest { uparam = at ∷ rest.uparam }

-- `stackp -= sizeof(char*); *((char**) stackp) = w;`
unfoldable pub push : (w : ℕ) → ArgStack → ArgStack
unfolding put_u32
push w s = record s { stackp = s.stackp - 4; memory = put_u32 (s.stackp - 4) w s.memory }

-- The pointers from the last to the first.
unfoldable pub push_pointers : List ℕ → ArgStack → ArgStack
unfolding push
push_pointers [] s = s
push_pointers (p ∷ ps) s = push p (push_pointers ps s)

-- The arguments of `main`, below the strings.
unfoldable pub push_frame : (argc : ℕ) → ArgStack → ArgStack
unfolding push push_pointers
push_frame argc s =
    let aligned = record s { stackp = s.stackp / 16 * 16 } in
    let pointers = push_pointers s.uparam (push 0 aligned) in
    let pushed = push argc (push pointers.stackp pointers) in
    record pushed { stackp = pushed.stackp - 4 }

unfoldable pub push_arguments : List (List ℕ) → Bytes → ArgStack
unfolding put_strings push_frame
push_arguments argv m = push_frame (length argv) (put_strings argv (user_stack - 16) m)

-- `if (argc)`
unfoldable pub user_stack_of : List (List ℕ) → Bytes → ArgStack
unfolding push_arguments
user_stack_of [] m = record { stackp = user_stack - 16; memory = m; uparam = [] }
user_stack_of (s ∷ ss) m = push_arguments (s ∷ ss) m

-- The registers and the attributes of a process that is started; `load_elf` has set the zones.
unfoldable pub start_process : (esp eip cr3 kstack parent : ℕ) → Process → Process
start_process esp eip cr3 kstack parent p =
    let heap = (p.e_bss / 0x1000 * 0x1000 + 0x1000) % 2 ^ 32 in
    record p {
      regs = record {
        eax = 0;
        ecx = 0;
        edx = 0;
        ebx = 0;
        esp = esp;
        ebp = 0;
        esi = 0;
        edi = 0;
        eip = eip;
        eflags = 0;
        cs = 0x23;
        ss = 0x33;
        ds = 0x2B;
        es = 0x2B;
        fs = 0x2B;
        gs = 0x2B;
        cr3 = cr3;
      };
      kstack = record { esp0 = kstack + 0x1000 - 16; ss0 = 0x18 };
      b_heap = heap;
      e_heap = heap;
      parent = parent;
      child = [];
      signal = 0;
      sigfn = λ i. 0;
      status = 0;
      state = ready;
    }

-- `previous`, or the process 0 in place of one that does not run.
unfoldable pub parent_of : Kernel → ℕ
parent_of k = if is_taken (k.p_list k.current).state then k.current else 0

-- The table once the process is started and added to its parent's children.
unfoldable pub add_process : (pid : ℕ) → Process → Kernel → Kernel
add_process pid p k =
    let started = update k.p_list pid p in
    let parent = started p.parent in
    record k {
      p_list = update started p.parent (record parent { child = pid ∷ parent.child });
      n_proc = k.n_proc + 1;
    }

-- The executable cannot be loaded: what is left of the attempt.
unfoldable pub give_up : (pid : ℕ) → Process → Kernel → Kernel
give_up pid p k = record k { p_list = update k.p_list pid p; n_proc = k.n_proc + 1 }

module _ (port : Port) (hd : Disk) (inode : Inode) (argv : List (List ℕ))
    (file cr3 kstack : ℕ) where
  -- The file is read and loaded.
  unfoldable pub load_file : (pid : ℕ) → Tasks → Loaded
  unfolding ext2_read_file load_elf
  load_file pid st =
      load_elf file (ext2_read_file port hd inode file st.memory).memory
        (record (st.kernel.p_list pid) { pid = pid })

  -- `load_task` with the number of the process; the answer is 0 when the file cannot be loaded.
  unfoldable pub load_into : (pid : ℕ) → Tasks → ℕ × Tasks
  unfolding load_file user_stack_of start_process parent_of add_process give_up
  load_into pid st =
      let loaded = load_file pid st in
      let stack = user_stack_of argv loaded.memory in
      let p =
        start_process stack.stackp loaded.entry cr3 kstack (parent_of st.kernel) loaded.process in
      let console : Vconsole = record {
        term = st.current_term;
        inb = λ i. 0;
        inlock = false;
        keypos = 0;
        mode = 1;
      } in
      let started = record st {
        kernel = add_process pid p st.kernel;
        pwd = update st.pwd pid (st.pwd st.kernel.current);
        fd = update st.fd pid [];
        consoles = update st.consoles pid console;
        memory = stack.memory;
      } in
      let failed = record st {
        kernel = give_up pid loaded.process st.kernel;
        memory = loaded.memory;
      } in
      if loaded.entry == 0 then (0, failed) else (pid, started)

  -- The number that was found; the outer `none` is a loop that does not end, and without a slot the
  -- answer is 0.
  unfoldable pub load_numbered : Option (Option ℕ) → Tasks → Option (ℕ × Tasks)
  unfolding load_into
  load_numbered none st = none
  load_numbered (some none) st = some (0, st)
  load_numbered (some (some pid)) st = some (load_into pid st)

  unfoldable pub load_task : Tasks → Option (ℕ × Tasks)
  unfolding new_pid load_numbered
  load_task st = load_numbered (new_pid st.kernel.p_list) st
