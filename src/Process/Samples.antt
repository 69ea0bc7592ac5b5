-- ===== src/Process/Samples.antt =====
-- A process of kern/process.h with concrete registers, for the tests.
use creeks_old.Base.{ℕ, []}
use creeks_old.Process.{Regs, State, Process}

abbrev pub regs : Regs
regs = record {
  eax = 0;
  ecx = 0;
  edx = 0;
  ebx = 0;
  esp = 0xDFFFFFF0;
  ebp = 0;
  esi = 0;
  edi = 0;
  eip = 0x40000000;
  eflags = 0;
  cs = 0x23;
  ss = 0x33;
  ds = 0x2B;
  es = 0x2B;
  fs = 0x2B;
  gs = 0x2B;
  cr3 = 0x9000;
}

abbrev pub process : ℕ → State → Process
process n st = record {
  pid = n;
  regs = regs;
  kstack = record { esp0 = 0x800FF0; ss0 = 0x18 };
  b_exec = 0;
  e_exec = 0;
  b_bss = 0;
  e_bss = 0;
  b_heap = 0;
  e_heap = 0;
  parent = 0;
  child = [];
  signal = 0;
  sigfn = λ s. 0;
  status = 0;
  state = st;
}
