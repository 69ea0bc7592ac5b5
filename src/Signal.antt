-- ===== src/Signal.antt =====
-- Signals, kern/signal.c and kern/signal.h, and sys_sigreturn of kern/syscalls/sys_sigreturn.c.
-- User memory is a function from the address of a word to the word.
pub mod Pending
pub mod Frame
pub mod Deliver
mod Tests
use creeks_old.Base.{
  ℕ, zero, suc, ◌+◌, ◌-◌, ◌*◌, ◌/◌, ◌%◌, ◌^◌, Bool, Option, none, some, ◌==◌, ◌||◌, if◌then◌else◌,
  update,
}
use creeks_old.Base.Bits.{bit_at, set_bit, clear_bit}
use creeks_old.Process.{u16, Regs, KStack, Process}

abbrev pub sighup : ℕ
sighup = 1

abbrev pub sigint : ℕ
sigint = 2

abbrev pub sigquit : ℕ
sigquit = 3

abbrev pub sigchld : ℕ
sigchld = 17

abbrev pub sig_dfl : ℕ
sig_dfl = 0

abbrev pub sig_ign : ℕ
sig_ign = 1

-- `sig - 1` as a shift count, which the processor takes modulo 32.
abbrev pub shift_of : ℕ → ℕ
shift_of sig = (sig + 31) % 32

unfoldable pub set_signal : ℕ → ℕ → ℕ
set_signal mask sig = set_bit mask (shift_of sig)

unfoldable pub clear_signal : ℕ → ℕ → ℕ
clear_signal mask sig = clear_bit mask (shift_of sig)

unfoldable pub is_signal : ℕ → ℕ → Bool
is_signal mask sig = bit_at mask (shift_of sig)

-- `mask >> 1` on an `int`: the sign bit is kept.
abbrev pub sar : ℕ → ℕ
sar m = m / 2 + m / 2 ^ 31 * 2 ^ 31

-- `while (!(mask & 1))` on fuel.
dequeue_loop : ℕ → ℕ → ℕ → Option ℕ
dequeue_loop zero sig mask = none
dequeue_loop (suc n) sig mask =
    let rest = dequeue_loop n (sig + 1) (sar mask) in if mask % 2 == 1 then some sig else rest

-- `none` would be a loop that does not end.
unfoldable pub dequeue_signal : ℕ → Option ℕ
unfolding dequeue_loop
dequeue_signal mask = if mask == 0 then some 0 else dequeue_loop 32 1 mask

abbrev pub Memory : Type 0
Memory = ℕ → ℕ

-- `esp[i]`
abbrev pub word : ℕ → ℕ → ℕ
word esp i = (esp + 4 * i) % 2 ^ 32

-- `(u32*) current->regs.esp - 20`
unfoldable pub frame_of : ℕ → ℕ
frame_of esp = (esp + 2 ^ 32 - 80) % 2 ^ 32

-- The twenty stores of `handle_signal`, in the code's order.
unfoldable pub save_frame : ℕ → Process → Memory → Memory
save_frame esp p m0 = m20
  where
    open p.regs use {eax, ecx, edx, ebx, ebp, esi, edi, eip, eflags, cs, ss, ds, es, fs, gs}

    m1 : Memory
    m1 = update m0 (word esp 19) 0x0030CD00

    m2 : Memory
    m2 = update m1 (word esp 18) 0x00000EB8

    m3 : Memory
    m3 = update m2 (word esp 17) p.kstack.esp0

    m4 : Memory
    m4 = update m3 (word esp 16) ss

    m5 : Memory
    m5 = update m4 (word esp 15) p.regs.esp

    m6 : Memory
    m6 = update m5 (word esp 14) eflags

    m7 : Memory
    m7 = update m6 (word esp 13) cs

    m8 : Memory
    m8 = update m7 (word esp 12) eip

    m9 : Memory
    m9 = update m8 (word esp 11) eax

    m10 : Memory
    m10 = update m9 (word esp 10) ecx

    m11 : Memory
    m11 = update m10 (word esp 9) edx

    m12 : Memory
    m12 = update m11 (word esp 8) ebx

    m13 : Memory
    m13 = update m12 (word esp 7) ebp

    m14 : Memory
    m14 = update m13 (word esp 6) esi

    m15 : Memory
    m15 = update m14 (word esp 5) edi

    m16 : Memory
    m16 = update m15 (word esp 4) ds

    m17 : Memory
    m17 = update m16 (word esp 3) es

    m18 : Memory
    m18 = update m17 (word esp 2) fs

    m19 : Memory
    m19 = update m18 (word esp 1) gs

    m20 : Memory
    m20 = update m19 (word esp 0) (word esp 18)

-- The process goes on, or is ended by `sys_exit`.
pub data Handled : Type 0 where
  returned : Process → Memory → Handled
  exits : (status : ℕ) → Handled

-- `switch (sig)` of the default action
default_action : ℕ → Process → Memory → Handled
default_action sig p m =
    if sig == sighup || (sig == sigint || sig == sigquit)
    then exits 1
    else if sig == sigchld
    then returned p m
    else returned (record p { signal = clear_signal p.signal sig }) m

-- A handler of the user's: the frame is saved, the handler is entered and reset.
user_action : ℕ → Process → Memory → Handled
unfolding save_frame frame_of
user_action sig p m =
    let esp = frame_of p.regs.esp in
    returned
      (record p {
        regs = record (p.regs) { esp = esp; eip = p.sigfn sig };
        sigfn = update p.sigfn sig sig_dfl;
        signal = if sig == sigchld then p.signal else clear_signal p.signal sig;
      })
      (save_frame esp p m)

unfoldable pub handle_signal : ℕ → Process → Memory → Handled
unfolding default_action user_action
handle_signal sig p m =
    if p.sigfn sig == sig_ign
    then returned (record p { signal = clear_signal p.signal sig }) m
    else if p.sigfn sig == sig_dfl
    then default_action sig p m
    else user_action sig p m

-- `sys_sigreturn`, where `ebp` is the frame pointer of `do_syscalls`. What it switches to
-- afterwards is task 0.
unfoldable pub sys_sigreturn : (ebp : ℕ) → Process → Memory → Process
sys_sigreturn ebp p m = record p {
  kstack = record (p.kstack) { esp0 = m (word esp 17) };
  regs = record {
    ss = u16 (m (word esp 16));
    esp = m (word esp 15);
    eflags = m (word esp 14);
    cs = u16 (m (word esp 13));
    eip = m (word esp 12);
    eax = m (word esp 11);
    ecx = m (word esp 10);
    edx = m (word esp 9);
    ebx = m (word esp 8);
    ebp = m (word esp 7);
    esi = m (word esp 6);
    edi = m (word esp 5);
    ds = u16 (m (word esp 4));
    es = u16 (m (word esp 3));
    fs = u16 (m (word esp 2));
    gs = u16 (m (word esp 1));
    cr3 = p.regs.cr3;
  };
}
  where
    esp : ℕ
    esp = word ebp 17
