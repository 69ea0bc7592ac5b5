-- ===== src/Mm/State.antt =====
-- The state of the kernel's memory management: the globals of kern/mm.h, and the headers of the
-- chunks of the kernel's heap, by address. Where no header was written the header functions stand
-- for whatever the memory holds.
use creeks_old.Base.{ℕ, Bool}
use creeks_old.Mm.Frames.{Bitmap}
use creeks_old.Mm.Paging.{Mirror}

pub record Mm : Type 0 where
  pub bitmap : Bitmap
  pub mirror : Mirror
  -- `kern_heap`
  pub kern_heap : ℕ
  -- `size` and `used` of `struct kmalloc_header`
  pub size : ℕ → ℕ
  pub used : ℕ → Bool
  pub kmalloc_used : ℕ

-- A call returns, or the machine is halted after a panic, or a loop does not end, or the code goes on
-- with a page of its heap that stands for no frame, where what it writes is not kept.
pub data Run {ℓ} (A : Type ℓ) : Type ℓ where
  halted hangs unbacked : Run A
  ok : A → Run A

infixl 5 ◌>>=◌
abbrev pub ◌>>=◌ {ℓ κ} : {A : Type ℓ} {B : Type κ} → Run A → (A → Run B) → Run B
halted >>= k = halted
hangs >>= k = hangs
unbacked >>= k = unbacked
ok value >>= k = k value
