-- ===== src/Schedule/Enter.antt =====
-- What `switch_to_task` does with the task that it is given.
use creeks_old.Base.{ℕ, ◌≡◌, ◌≢◌, some}
use creeks_old.Process.{Process, Kernel}
use creeks_old.Signal.{handle_signal, returned, exits}
use creeks_old.Signal.Pending.{Lowest}
use creeks_old.Schedule.{Mode, Frame, Switched, resumes, dies, iret_frame}

-- The task and the memory with which it goes on: both as they are when it has no signal pending, and
-- otherwise as the handling of its lowest pending signal leaves them.
pub data Prepared (p : Process) (m : ℕ → ℕ) : Process → (ℕ → ℕ) → Type 0 where
  quiet : p.signal ≡ 0 → Prepared p m p m
  handled :
      {p' : Process} {m' : ℕ → ℕ} (sig : ℕ)
      → Lowest p.signal (some sig)
      → handle_signal sig p m ≡ returned p' m'
      → Prepared p m p' m'

-- The task is current; it is resumed with the frame of its mode, on a processor whose kernel stack
-- is the task's, after its lowest pending signal was handled, or that signal ends it with the status
-- that the handling gives. Other tasks are as before.
pub data Entered (n : ℕ) (mode : Mode) (k : Kernel) : Switched → Type 0 where
  resumed :
      {k' : Kernel} {f : Frame}
      → k'.current ≡ n
      → k'.tss_esp0 ≡ (k'.p_list n).kstack.esp0
      → k'.tss_ss0 ≡ (k'.p_list n).kstack.ss0
      → f ≡ iret_frame mode n (k'.p_list n)
      → ((i : ℕ) → i ≢ n → k'.p_list i ≡ k.p_list i)
      → Prepared (k.p_list n) k.memory (k'.p_list n) k'.memory
      → k'.n_proc ≡ k.n_proc
      → Entered n mode k (resumes k' f)
  killed :
      {k' : Kernel} (sig status : ℕ)
      → Lowest (k.p_list n).signal (some sig)
      → handle_signal sig (k.p_list n) k.memory ≡ exits status
      → k' ≡ record k { current = n }
      → Entered n mode k (dies k' status)
