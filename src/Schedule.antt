-- ===== src/Schedule.antt =====
-- The scheduler, kern/schedule.c, and the choice of a process number in `load_task` of
-- kern/process.c. `saved` is the interrupt frame that `stack_ptr` points to.
pub mod Choice
pub mod Fairness
pub mod Slots
pub mod Switch
pub mod Enter
mod Tests
use creeks_old.Base.{
  ℕ, zero, suc, ◌+◌, ◌-◌, ◌%◌, ◌^◌, Bool, Option, none, some, List, [], ◌∷◌, ◌==◌, ◌!=◌, ltb, ◌&&◌,
  if◌then◌else◌, update,
}
use creeks_old.Process.{u16, Regs, KStack, Process, Kernel, is_ready, is_taken, max_pid}
use creeks_old.Signal.{dequeue_signal, handle_signal, Handled, returned, exits}
use Prim.Native.Nat.{bit_and, bit_or}

-- `KERNELMODE` and `USERMODE`
pub data Mode : Type 0 where
  kernel_mode user_mode : Mode

-- The stack that `switch_to_task` loads and what it pushes there, first to last, before it jumps to
-- `do_switch`.
pub record Frame : Type 0 where
  pub kss : ℕ
  pub kesp : ℕ
  pub pushed : List ℕ

pub data Switched : Type 0 where
  -- the scheduler returned to the interrupted code
  stays : Kernel → Switched
  -- a process is resumed
  resumes : Kernel → Frame → Switched
  -- a signal ends the process that was to be resumed
  dies : Kernel → (status : ℕ) → Switched
  -- a loop does not end
  hangs : Switched

-- What is loaded and pushed for the current process.
pub iret_frame : Mode → ℕ → Process → Frame
iret_frame user_mode n p = record {
  kss = p.kstack.ss0;
  kesp = p.kstack.esp0;
  pushed =
      p.regs.ss
      ∷ p.regs.esp
      ∷ bit_and (bit_or p.regs.eflags 0x200) 0xFFFFBFFF
      ∷ p.regs.cs
      ∷ p.regs.eip
      ∷ n
      ∷ [];
}
iret_frame kernel_mode n p = record {
  kss = p.regs.ss;
  kesp = p.regs.esp;
  pushed = bit_and (bit_or p.regs.eflags 0x200) 0xFFFFBFFF ∷ p.regs.cs ∷ p.regs.eip ∷ n ∷ [];
}

-- The part of `switch_to_task` after the signals.
enter_task : Mode → ℕ → Process → (ℕ → ℕ) → Kernel → Switched
enter_task mode n p m k =
    resumes
      (record k {
        p_list = update k.p_list n p;
        tss_ss0 = p.kstack.ss0;
        tss_esp0 = p.kstack.esp0;
        memory = m;
      })
      (iret_frame mode n p)

after_signal : Mode → ℕ → Kernel → Handled → Switched
after_signal mode n k (returned p m) = enter_task mode n p m k
after_signal mode n k (exits status) = dies k status

unfoldable pub switch_to_task : ℕ → Mode → Kernel → Switched
unfolding after_signal enter_task iret_frame
switch_to_task n mode k0 = elim (dequeue_signal (k0.p_list n).signal) [
  | none ↦ hangs
  | some sig ↦
      if sig != 0
      then after_signal mode n k (handle_signal sig (k0.p_list n) k0.memory)
      else enter_task mode n (k0.p_list n) k0.memory k
]
  where
    k : Kernel
    k = record k0 { current = n }

-- The context of the interrupted process, from the frame that the interrupt pushed.
unfoldable pub save_context : (saved : ℕ → ℕ) (tss_esp0 tss_ss0 : ℕ) → Process → Process
save_context saved tss_esp0 tss_ss0 p = record p {
  regs = record (p.regs) {
    eflags = saved 16;
    cs = u16 (saved 15);
    eip = saved 14;
    eax = saved 13;
    ecx = saved 12;
    edx = saved 11;
    ebx = saved 10;
    ebp = saved 8;
    esi = saved 7;
    edi = saved 6;
    ds = u16 (saved 5);
    es = u16 (saved 4);
    fs = u16 (saved 3);
    gs = u16 (saved 2);
    esp = if u16 (saved 15) != 0x08 then saved 17 else (saved 9 + 12) % 2 ^ 32;
    ss = if u16 (saved 15) != 0x08 then u16 (saved 18) else tss_ss0;
  };
  kstack = record { ss0 = tss_ss0; esp0 = tss_esp0 };
}

-- `for (; i < …; i++) if (p_list[i].state == 1) newpid = i;`, left at the first hit, with the rounds
-- left; 0 when there is none.
find_ready : ℕ → ℕ → (ℕ → Process) → ℕ
find_ready zero i p_list = 0
find_ready (suc n) i p_list =
    let rest = find_ready n (i + 1) p_list in if is_ready (p_list i).state then i else rest

-- The two loops of the round robin, after process `pid`.
pub next_pid : ℕ → (ℕ → Process) → ℕ
unfolding find_ready
next_pid pid p_list =
    let newpid = find_ready (max_pid - (pid + 1)) (pid + 1) p_list in
    if newpid == 0 then find_ready (pid - 1) 1 p_list else newpid

pub switch_mode : Process → Mode
switch_mode p = if p.regs.cs != 0x08 then user_mode else kernel_mode

unfoldable pub schedule : (saved : ℕ → ℕ) → Kernel → Switched
unfolding next_pid switch_mode switch_to_task save_context
schedule saved k =
    if k.n_proc == 0
    then stays k
    else if (k.n_proc == 1) && ((k.p_list k.current).pid != 0)
    then stays k
    else switch_to_task (k'.p_list newpid).pid (switch_mode (k'.p_list newpid)) k'
  where
    k' : Kernel
    k' = record k {
      p_list =
          update k.p_list k.current (save_context saved k.tss_esp0 k.tss_ss0 (k.p_list k.current));
    }

    newpid : ℕ
    newpid = next_pid (k'.p_list k.current).pid k'.p_list

-- `while (p_list[pid].state != 0 && pid++ < MAXPID);` of `load_task`, on fuel: the number at which
-- the loop ends.
free_slot : ℕ → ℕ → (ℕ → Process) → Option ℕ
free_slot zero pid p_list = none
free_slot (suc n) pid p_list =
    let rest = free_slot n (pid + 1) p_list in
    if is_taken (p_list pid).state
    then (if ltb pid max_pid then rest else some (pid + 1))
    else some pid

-- The number that `load_task` takes: the loop from 1, and the test behind it. The inner `none` is
-- the panic that there is no slot, the outer one a loop that does not end.
unfoldable pub new_pid : (ℕ → Process) → Option (Option ℕ)
unfolding free_slot
new_pid p_list = elim (free_slot max_pid 1 p_list) [
  | none ↦ none
  | some pid ↦ some (if is_taken (p_list pid).state then none else some pid)
]
