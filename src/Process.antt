-- ===== src/Process.antt =====
-- The process structure of kern/process.h. Pointers to processes are indices into `p_list`, lists
-- linked through `struct list_head` are lists of such indices, pages are their frames'
-- addresses.
pub mod Samples
use creeks_old.Base.{ℕ, ◌%◌, ◌^◌, ◌<◌, Bool, true, false, List, ◌≡◌}

-- `regs` of `struct process`; the segment registers are bit-fields of 16 bits
pub record Regs : Type 0 where
  pub eax : ℕ
  pub ecx : ℕ
  pub edx : ℕ
  pub ebx : ℕ
  pub esp : ℕ
  pub ebp : ℕ
  pub esi : ℕ
  pub edi : ℕ
  pub eip : ℕ
  pub eflags : ℕ
  pub cs : ℕ
  pub ss : ℕ
  pub ds : ℕ
  pub es : ℕ
  pub fs : ℕ
  pub gs : ℕ
  pub cr3 : ℕ

-- `kstack` of `struct process`
pub record KStack : Type 0 where
  pub esp0 : ℕ
  pub ss0 : ℕ

-- `state`: -1 zombie, 0 not runnable, 1 ready/running, 2 sleep
pub data State : Type 0 where
  zombie unused ready sleep : State

-- `state == 1`
abbrev pub is_ready : State → Bool
is_ready ready = true
is_ready _ = false

-- `state > 0`
abbrev pub is_alive : State → Bool
is_alive ready = true
is_alive sleep = true
is_alive _ = false

-- `state != 0`
abbrev pub is_taken : State → Bool
is_taken unused = false
is_taken _ = true

-- `state == -1`
abbrev pub is_zombie : State → Bool
is_zombie zombie = true
is_zombie _ = false

-- `struct process`, without what other modules keep: the page directory, the console and the open
-- files.
pub record Process : Type 0 where
  pub pid : ℕ
  pub regs : Regs
  pub kstack : KStack
  pub b_exec : ℕ
  pub e_exec : ℕ
  pub b_bss : ℕ
  pub e_bss : ℕ
  pub b_heap : ℕ
  pub e_heap : ℕ
  pub parent : ℕ
  pub child : List ℕ
  pub signal : ℕ
  -- `void* sigfn[32]`, so for the signals below 32
  pub sigfn : ℕ → ℕ
  pub status : ℕ
  pub state : State

-- What a bit-field of 16 bits keeps.
abbrev pub u16 : ℕ → ℕ
u16 x = x % 2 ^ 16

-- The segment registers are words of 16 bits.
pub record HasSegments (r : Regs) : Type 0 where
  pub cs : r.cs < 2 ^ 16
  pub ss : r.ss < 2 ^ 16
  pub ds : r.ds < 2 ^ 16
  pub es : r.es < 2 ^ 16
  pub fs : r.fs < 2 ^ 16
  pub gs : r.gs < 2 ^ 16

-- `MAXPID`
abbrev pub max_pid : ℕ
max_pid = 32

-- The table of processes, `current` and `n_proc`, with the fields of `default_tss` that the
-- scheduler uses and the user memory that it may write to.
pub record Kernel : Type 0 where
  -- `p_list[MAXPID + 1]`, so for the numbers up to `max_pid`; what lies behind is only read
  pub p_list : ℕ → Process
  pub current : ℕ
  pub n_proc : ℕ
  pub tss_esp0 : ℕ
  pub tss_ss0 : ℕ
  pub memory : ℕ → ℕ

-- `p_list[i]` holds the process of number `i`.
abbrev pub IsNumbered : (ℕ → Process) → Type 0
IsNumbered p_list = (i : ℕ) → (p_list i).pid ≡ i
