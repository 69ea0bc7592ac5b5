-- ===== src/Tasks/Tests.antt =====
-- Witnesses for `load_task` of kern/process.c.
use creeks_old.Base.{ℕ, ◌+◌, ◌%◌, ◌≡◌, ◌==◌, if◌then◌else◌, false, refl, some, [], ◌∷◌, arith}
use creeks_old.Disk.Tests.{drives_port}
use creeks_old.Ext2.Tests.{small_disk, two_blocks}
use creeks_old.Process.{ready, unused}
use creeks_old.Process.Samples.{process}
use creeks_old.Tasks.{Tasks, user_stack_of, load_task}
use creeks_old.Tasks.Strings.{room}
use creeks_old.Tasks.Stack.{HasArguments, user_stack_of-HasArguments}
use creeks_old.Tasks.Family.{IsFamily}
use creeks_old.Tasks.Started.{IsAnswer, HasRoom, load_task-IsAnswer}

abbrev pub idle : Tasks
idle = record {
  kernel = record {
    p_list = λ n. process n (if n == 0 then ready else unused);
    current = 0;
    n_proc = 1;
    tss_esp0 = 0;
    tss_ss0 = 0;
    memory = λ a. 0;
  };
  pwd = λ n. 0;
  fd = λ n. [];
  consoles = λ n. record { term = 1; inb = λ i. 0; inlock = false; keypos = 0; mode = 1 };
  current_term = 1;
  memory = λ a. 0;
}

pub idle-IsFamily : IsFamily (λ n. process n (if n == 0 then ready else unused))
idle-IsFamily q = record { number = refl; children = tt }

pub idle-HasRoom : HasRoom (λ n. process n (if n == 0 then ready else unused))
idle-HasRoom = (1, (omega arith, (omega arith, refl)))

load_task-IsAnswer_example :
    (a : ℕ × Tasks) × ((load_task drives_port small_disk two_blocks
          ((108 ∷ 115 ∷ []) ∷ [])
          0x5000
          0x9000
          0x800000
          idle
        ≡ some a)
      × IsAnswer drives_port small_disk two_blocks
          ((108 ∷ 115 ∷ []) ∷ [])
          0x5000
          0x9000
          0x800000
          idle
          a)
load_task-IsAnswer_example =
    load_task-IsAnswer drives_port small_disk two_blocks ((108 ∷ 115 ∷ []) ∷ []) 0x5000 0x9000
      0x800000 idle idle-IsFamily idle-HasRoom

user_stack_of-HasArguments_example :
    let stack = user_stack_of ((108 ∷ 115 ∷ []) ∷ (47 ∷ []) ∷ []) (λ a. 7) in
    HasArguments ((108 ∷ 115 ∷ []) ∷ (47 ∷ []) ∷ []) stack.stackp stack.memory
    × ((stack.stackp + 8) % 16 ≡ 0)
unfolding room
user_stack_of-HasArguments_example =
    user_stack_of-HasArguments (108 ∷ 115 ∷ []) ((47 ∷ []) ∷ []) (λ a. 7) (omega arith)
