-- ===== src/Signal/Deliver.antt =====
-- What `handle_signal` does to a process with a handler of its own.
use creeks_old.Base.{ℕ, ◌<◌, ◌≡◌, ◌≢◌, refl, false, arith, ◌==◌, if◌then◌else◌}
use creeks_old.Process.{Process}
use creeks_old.Signal.{
  Memory, word, frame_of, save_frame, returned, handle_signal, clear_signal, is_signal, sig_dfl,
  sig_ign, sigchld,
}
use creeks_old.Signal.Pending.{is_signal-changes}
use creeks_old.Signal.Frame.{save_frame_code}

-- A handler of the user's, for any signal from 1 to 31 but SIGCHLD: the process continues at the
-- handler, on a stack whose return address leads to code that calls `sys_sigreturn`; of the handlers
-- only this one is reset to the default, and of the signals only this one stops being pending.
pub handle_signal_user :
    (sig s : ℕ) (p : Process) (m : Memory)
    → 0 < sig
    → sig < 32
    → 0 < s
    → s < 32
    → sig ≢ sigchld
    → p.sigfn sig ≢ sig_dfl
    → p.sigfn sig ≢ sig_ign
    → (p' : Process) × (m' : Memory) × (handle_signal sig p m ≡ returned p' m')
      × (p'.regs.eip ≡ p.sigfn sig)
      × (m' (word p'.regs.esp 0) ≡ word p'.regs.esp 18)
      × (m' (word p'.regs.esp 18) ≡ 0x00000EB8)
      × (m' (word p'.regs.esp 19) ≡ 0x0030CD00)
      × (p'.sigfn s ≡ (if s == sig then sig_dfl else p.sigfn s))
      × (is_signal p'.signal s ≡ (if s == sig then false else is_signal p.signal s))
unfolding handle_signal
handle_signal_user sig s p m lo hi ls hs nc nd ni =
    let esp = frame_of p.regs.esp in
    (
      record p {
        regs = record (p.regs) { esp = esp; eip = p.sigfn sig };
        sigfn = λ j. if j == sig then sig_dfl else p.sigfn j;
        signal = clear_signal p.signal sig;
      },
      save_frame esp p m,
      ground arith,
      refl,
      (save_frame_code esp p m).0,
      (save_frame_code esp p m).1,
      (save_frame_code esp p m).2,
      refl,
      (is_signal-changes p.signal sig s lo (omega (arith, hi)) ls (omega (arith, hs))).1,
    )
