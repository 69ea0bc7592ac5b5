-- ===== src/Schedule/Switch.antt =====
-- What `switch_to_task` and `schedule` do to the table of processes and to the stack.
use creeks_old.Base.{
  ℕ, ◌<◌, ◌≡◌, ◌≢◌, ◌⊎◌, refl, true, false, arith, ◌==◌, ◌!=◌, ◌%◌, ◌^◌, ◌+◌, if◌then◌else◌, update,
}
use creeks_old.Base.Bits.{bit_at}
use creeks_old.Base.Bits.Table.{holds_under, holds_under-at, same, eq_of_same}
use creeks_old.Base.Bits.Words.{bit_at-bit_or, bit_at-bit_and}
use creeks_old.Process.{Process, Kernel}
use creeks_old.Schedule.{Switched, stays, switch_to_task, save_context, switch_mode}
use creeks_old.Schedule.Choice.{IsNext}
use Prim.Native.Nat.{bit_and, bit_or}

-- The flags with which a process is resumed.
abbrev pub resumed_flags : ℕ → ℕ
resumed_flags eflags = bit_and (bit_or eflags 0x200) 0xFFFFBFFF

if_flag : (k : ℕ) → k < 32 → bit_at 0x200 k ≡ (k == 9)
unfolding holds_under same bit_at
if_flag k h = eq_of_same _ _ (holds_under-at (λ j. same (bit_at 0x200 j) (j == 9)) 32 refl k h)

nt_mask : (k : ℕ) → k < 32 → bit_at 0xFFFFBFFF k ≡ (k != 14)
unfolding holds_under same bit_at
nt_mask k h =
    eq_of_same _ _ (holds_under-at (λ j. same (bit_at 0xFFFFBFFF j) (j != 14)) 32 refl k h)

-- Interrupts are on (bit 9), the nested task flag (bit 14) is off, the other 30 flags are kept.
pub resumed_flags_bits :
    (eflags k : ℕ)
    → k < 32
    → bit_at (resumed_flags eflags) k
      ≡ (if k == 9 then true else if k == 14 then false else bit_at eflags k)
resumed_flags_bits eflags k h = ground (
  arith,
  bit_at-bit_and k (bit_or eflags 0x200) 0xFFFFBFFF,
  bit_at-bit_or k eflags 0x200,
  if_flag k h,
  nt_mask k h,
)

-- The table with the context of the current process saved.
abbrev saved_list : (ℕ → ℕ) → Kernel → ℕ → Process
saved_list saved k =
    update k.p_list k.current (save_context saved k.tss_esp0 k.tss_ss0 (k.p_list k.current))

-- The context of the process that was interrupted, as the interrupt's frame has it: the stack is the
-- one it pushed for a process in user mode, and where the frame ends for one in kernel mode.
pub record IsSaved (saved : ℕ → ℕ) (esp0 ss0 : ℕ) (p p' : Process) : Type 0 where
  pub eflags : p'.regs.eflags ≡ saved 16
  pub cs : p'.regs.cs ≡ saved 15 % 2 ^ 16
  pub eip : p'.regs.eip ≡ saved 14
  pub eax : p'.regs.eax ≡ saved 13
  pub ecx : p'.regs.ecx ≡ saved 12
  pub edx : p'.regs.edx ≡ saved 11
  pub ebx : p'.regs.ebx ≡ saved 10
  pub ebp : p'.regs.ebp ≡ saved 8
  pub esi : p'.regs.esi ≡ saved 7
  pub edi : p'.regs.edi ≡ saved 6
  pub ds : p'.regs.ds ≡ saved 5 % 2 ^ 16
  pub es : p'.regs.es ≡ saved 4 % 2 ^ 16
  pub fs : p'.regs.fs ≡ saved 3 % 2 ^ 16
  pub gs : p'.regs.gs ≡ saved 2 % 2 ^ 16
  pub in_user_mode : p'.regs.cs ≢ 0x08 → (p'.regs.esp ≡ saved 17) × (p'.regs.ss ≡ saved 18 % 2 ^ 16)
  pub in_kernel_mode :
      p'.regs.cs ≡ 0x08 → (p'.regs.esp ≡ (saved 9 + 12) % 2 ^ 32) × (p'.regs.ss ≡ ss0)
  pub kernel_stack : (p'.kstack.esp0 ≡ esp0) × (p'.kstack.ss0 ≡ ss0)
  pub kept : record p' { regs = p.regs; kstack = p.kstack } ≡ p
  pub directory : p'.regs.cr3 ≡ p.regs.cr3

-- `schedule` goes on with the interrupted code exactly when there is no process, or when there is
-- one and it is the current one.
pub data Scheduled (saved : ℕ → ℕ) (k : Kernel) : Switched → Type 0 where
  same_task : (k.n_proc ≡ 0) ⊎ ((k.n_proc ≡ 1) × (k.current ≢ 0)) → Scheduled saved k (stays k)
  switched :
      {r : Switched} (next : ℕ) (p_list : ℕ → Process)
      → IsNext p_list k.current next
      → ((i : ℕ) → i ≢ k.current → p_list i ≡ k.p_list i)
      → IsSaved saved k.tss_esp0 k.tss_ss0 (k.p_list k.current) (p_list k.current)
      → r ≡ switch_to_task next (switch_mode (p_list next)) (record k { p_list = p_list })
      → Scheduled saved k r
