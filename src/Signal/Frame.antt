-- ===== src/Signal/Frame.antt =====
-- The frame that `handle_signal` leaves on the user stack and `sys_sigreturn` reads.
use creeks_old.Base.{ℕ, ◌≡◌, ◌≢◌, ap, ◌∙◌, refl, arith}
use creeks_old.Process.{KStack, Process, Regs, u16, HasSegments}
use creeks_old.Signal.{
  Memory, word, frame_of, save_frame, sys_sigreturn, returned, handle_signal, sig_dfl, sig_ign,
}

segments_kept :
    (r : Regs)
    → HasSegments r
    → record r {
      cs = u16 r.cs;
      ss = u16 r.ss;
      ds = u16 r.ds;
      es = u16 r.es;
      fs = u16 r.fs;
      gs = u16 r.gs;
    }
      ≡ r
segments_kept r small =
    let cs : u16 r.cs ≡ r.cs = omega (arith, small.cs) in
    let ss : u16 r.ss ≡ r.ss = omega (arith, small.ss) in
    let ds : u16 r.ds ≡ r.ds = omega (arith, small.ds) in
    let es : u16 r.es ≡ r.es = omega (arith, small.es) in
    let fs : u16 r.fs ≡ r.fs = omega (arith, small.fs) in
    let gs : u16 r.gs ≡ r.gs = omega (arith, small.gs) in rw (cs, ss, ds, es, fs, gs) refl

module _ (esp : ℕ) (p : Process) (m : Memory) where
  read_1 : save_frame esp p m (word esp 1) ≡ p.regs.gs
  unfolding save_frame
  read_1 = ground arith

  read_2 : save_frame esp p m (word esp 2) ≡ p.regs.fs
  unfolding save_frame
  read_2 = ground arith

  read_3 : save_frame esp p m (word esp 3) ≡ p.regs.es
  unfolding save_frame
  read_3 = ground arith

  read_4 : save_frame esp p m (word esp 4) ≡ p.regs.ds
  unfolding save_frame
  read_4 = ground arith

  read_5 : save_frame esp p m (word esp 5) ≡ p.regs.edi
  unfolding save_frame
  read_5 = ground arith

  read_6 : save_frame esp p m (word esp 6) ≡ p.regs.esi
  unfolding save_frame
  read_6 = ground arith

  read_7 : save_frame esp p m (word esp 7) ≡ p.regs.ebp
  unfolding save_frame
  read_7 = ground arith

  read_8 : save_frame esp p m (word esp 8) ≡ p.regs.ebx
  unfolding save_frame
  read_8 = ground arith

  read_9 : save_frame esp p m (word esp 9) ≡ p.regs.edx
  unfolding save_frame
  read_9 = ground arith

  read_10 : save_frame esp p m (word esp 10) ≡ p.regs.ecx
  unfolding save_frame
  read_10 = ground arith

  read_11 : save_frame esp p m (word esp 11) ≡ p.regs.eax
  unfolding save_frame
  read_11 = ground arith

  read_12 : save_frame esp p m (word esp 12) ≡ p.regs.eip
  unfolding save_frame
  read_12 = ground arith

  read_13 : save_frame esp p m (word esp 13) ≡ p.regs.cs
  unfolding save_frame
  read_13 = ground arith

  read_14 : save_frame esp p m (word esp 14) ≡ p.regs.eflags
  unfolding save_frame
  read_14 = ground arith

  read_15 : save_frame esp p m (word esp 15) ≡ p.regs.esp
  unfolding save_frame
  read_15 = ground arith

  read_16 : save_frame esp p m (word esp 16) ≡ p.regs.ss
  unfolding save_frame
  read_16 = ground arith

  read_17 : save_frame esp p m (word esp 17) ≡ p.kstack.esp0
  unfolding save_frame
  read_17 = ground arith

  -- The return address is that of the two words of code, `mov eax, 14` and `int 0x30`.
  pub save_frame_code :
      (save_frame esp p m (word esp 0) ≡ word esp 18)
      × (save_frame esp p m (word esp 18) ≡ 0x00000EB8)
      × (save_frame esp p m (word esp 19) ≡ 0x0030CD00)
  unfolding save_frame
  save_frame_code = ground arith

  restored :
      (q : Process) (ebp : ℕ)
      → word ebp 17 ≡ esp
      → q.regs.cr3 ≡ p.regs.cr3
      → HasSegments p.regs
      → (sys_sigreturn ebp q (save_frame esp p m)).regs ≡ p.regs
  unfolding sys_sigreturn
  restored q ebp e c small =
      rw
        (
          e, read_1, read_2, read_3, read_4, read_5, read_6, read_7, read_8, read_9, read_10,
          read_11, read_12, read_13, read_14, read_15, read_16, c,
        )
        (segments_kept p.regs small)

  restored_kstack :
      (q : Process) (ebp : ℕ)
      → word ebp 17 ≡ esp
      → q.kstack.ss0 ≡ p.kstack.ss0
      → (sys_sigreturn ebp q (save_frame esp p m)).kstack ≡ p.kstack
  unfolding sys_sigreturn
  restored_kstack q ebp e c = rw (e, read_17, c) refl

-- When a process with a handler of its own for the signal is interrupted, and later `sys_sigreturn`
-- is reached with the saved frame at the address that it reads from, in the same address space and
-- with the frame untouched, then every register and the kernel stack are those from before the
-- signal, whatever registers the handler left behind. The segment registers are words of 16 bits.
pub sys_sigreturn-handle_signal :
    (sig : ℕ) (p q p' : Process) (m m' : Memory) (ebp : ℕ)
    → p.sigfn sig ≢ sig_dfl
    → p.sigfn sig ≢ sig_ign
    → handle_signal sig p m ≡ returned p' m'
    → word ebp 17 ≡ p'.regs.esp
    → q.regs.cr3 ≡ p'.regs.cr3
    → q.kstack.ss0 ≡ p'.kstack.ss0
    → HasSegments p.regs
    → ((sys_sigreturn ebp q m').regs ≡ p.regs) × ((sys_sigreturn ebp q m').kstack ≡ p.kstack)
unfolding handle_signal
sys_sigreturn-handle_signal sig p q p' m m' ebp nd ni h e c k small =
    let esp = frame_of p.regs.esp in
    let mem : m' ≡ save_frame esp p m = ground arith in
    let at : p'.regs.esp ≡ esp = ground arith in
    let cr : p'.regs.cr3 ≡ p.regs.cr3 = ground arith in
    let st : p'.kstack ≡ p.kstack = ground arith in
    rw mem (
      restored esp p m q ebp (e ∙ at) (c ∙ cr) small,
      restored_kstack esp p m q ebp (e ∙ at) (k ∙ ap (λ (s : KStack). s.ss0) st),
    )
