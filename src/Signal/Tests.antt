-- ===== src/Signal/Tests.antt =====
-- Runs of the signal code, and its theorems at a concrete process.
use creeks_old.Base.{◌≡◌, refl, some, [], arith, ◌==◌, if◌then◌else◌}
use creeks_old.Process.{HasSegments, Regs, ready, Process}
use creeks_old.Signal.{
  Memory, word, frame_of, save_frame, sys_sigreturn, returned, handle_signal, clear_signal,
  is_signal, dequeue_signal, sig_dfl,
}
use creeks_old.Signal.Pending.{Lowest, dequeue_signal-Lowest}
use creeks_old.Signal.Frame.{sys_sigreturn-handle_signal}
use creeks_old.Signal.Deliver.{handle_signal_user}

abbrev regs : Regs
regs = record {
  eax = 1;
  ecx = 2;
  edx = 3;
  ebx = 4;
  esp = 0xDFFFFFF0;
  ebp = 6;
  esi = 7;
  edi = 8;
  eip = 0x40000100;
  eflags = 0x202;
  cs = 0x23;
  ss = 0x33;
  ds = 0x2B;
  es = 0x2B;
  fs = 0x2B;
  gs = 0x2B;
  cr3 = 0x9000;
}

-- SIGUSR1 and SIGCHLD are pending, and SIGUSR1 has a handler.
abbrev shell : Process
shell = record {
  pid = 1;
  regs = regs;
  kstack = record { esp0 = 0x800FF0; ss0 = 0x18 };
  b_exec = 0;
  e_exec = 0;
  b_bss = 0;
  e_bss = 0;
  b_heap = 0;
  e_heap = 0;
  parent = 0;
  child = [];
  signal = 0x10200;
  sigfn = λ s. if s == 10 then 0x40000500 else 0;
  status = 0;
  state = ready;
}

abbrev blank : Memory
blank a = 0

lowest_is_ten : dequeue_signal shell.signal ≡ some 10
unfolding dequeue_signal
lowest_is_ten = refl

dequeue_signal-Lowest_example : Lowest 0x10200 (dequeue_signal 0x10200)
dequeue_signal-Lowest_example = dequeue_signal-Lowest 0x10200 (omega arith)

-- The process as `handle_signal` leaves it.
abbrev in_handler : Process
in_handler = record shell {
  regs = record (shell.regs) { esp = frame_of 0xDFFFFFF0; eip = 0x40000500 };
  sigfn = λ j. if j == 10 then sig_dfl else shell.sigfn j;
  signal = clear_signal 0x10200 10;
}

entered :
    handle_signal 10 shell blank
    ≡ returned in_handler (save_frame (frame_of 0xDFFFFFF0) shell blank)
unfolding handle_signal
entered = refl

frame_found : word 0xDFFFFF5C 17 ≡ frame_of 0xDFFFFFF0
unfolding frame_of
frame_found = refl

segments : HasSegments regs
segments = record {
  cs = omega arith;
  ss = omega arith;
  ds = omega arith;
  es = omega arith;
  fs = omega arith;
  gs = omega arith;
}

sys_sigreturn-handle_signal_example :
    ((sys_sigreturn 0xDFFFFF5C in_handler (save_frame (frame_of 0xDFFFFFF0) shell blank)).regs
      ≡ regs)
    × ((sys_sigreturn 0xDFFFFF5C in_handler (save_frame (frame_of 0xDFFFFFF0) shell blank)).kstack
        ≡ shell.kstack)
sys_sigreturn-handle_signal_example =
    sys_sigreturn-handle_signal 10 shell in_handler in_handler blank
      (save_frame (frame_of 0xDFFFFFF0) shell blank) 0xDFFFFF5C (omega arith) (omega arith) entered
      frame_found refl refl segments

handle_signal_user_example :
    (p' : Process) × (m' : Memory) × (handle_signal 10 shell blank ≡ returned p' m')
    × (p'.regs.eip ≡ 0x40000500)
    × (m' (word p'.regs.esp 0) ≡ word p'.regs.esp 18)
    × (m' (word p'.regs.esp 18) ≡ 0x00000EB8)
    × (m' (word p'.regs.esp 19) ≡ 0x0030CD00)
    × (p'.sigfn 17 ≡ 0)
    × (is_signal p'.signal 17 ≡ is_signal shell.signal 17)
handle_signal_user_example =
    handle_signal_user 10 17 shell blank (omega arith) (omega arith) (omega arith) (omega arith)
      (omega arith) (omega arith) (omega arith)
