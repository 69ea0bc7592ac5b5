-- ===== src/Interrupts.antt =====
-- The handlers of kern/interrupt.c for the clock and the keyboard, with the table of kern/kbd.h. Static
-- variables are fields of the handlers' state; what the keyboard's port gives is an argument.
pub mod Kbdmap
pub mod Typing
pub mod Clock
mod Tests
use creeks_old.Base.{
  ℕ, suc, ◌+◌, ◌-◌, ◌*◌, ◌%◌, Bool, true, false, ◌==◌, ltb, ◌||◌, get_or, length, if◌then◌else◌,
}
use creeks_old.Process.{Kernel}
use creeks_old.Schedule.{Switched, schedule}
use creeks_old.Console.{Consoles, putc_console}
use creeks_old.Interrupts.Kbdmap.{kbdmap}

-- `tic` and `sec`
pub record Tics : Type 0 where
  pub tic : ℕ
  pub sec : ℕ

-- The counters after an interrupt of the clock.
unfoldable pub count_tic : Tics → Tics
count_tic c =
    let tic = c.tic + 1 in
    if tic % 100 == 0
    then record { tic = 0; sec = c.sec + 1 }
    else record { tic = tic; sec = c.sec }

unfoldable pub isr_clock_int : (saved : ℕ → ℕ) → Tics × Kernel → Tics × Switched
unfolding count_tic schedule
isr_clock_int saved (c, k) = (count_tic c, schedule saved k)

-- `lshift_enable`, `rshift_enable`, and the consoles.
pub record Keyboard : Type 0 where
  pub lshift_enable : Bool
  pub rshift_enable : Bool
  pub consoles : Consoles

-- The byte of a key; `behind` is what lies behind the table, for keys that it does not have.
unfoldable pub key_byte : (behind : ℕ → ℕ) (i : ℕ) → Bool → ℕ
key_byte behind i shift = let at = i * 4 + (if shift then 1 else 0) in get_or kbdmap at (behind at)

-- A key goes down.
unfoldable pub key_down : (behind : ℕ → ℕ) → ℕ → Keyboard → Keyboard
unfolding key_byte putc_console
key_down behind i k =
    let typed = record k {
      consoles = putc_console (key_byte behind i (k.lshift_enable || k.rshift_enable)) k.consoles;
    } in
    if i == 0x29
    then record k { lshift_enable = true }
    else if i == 0x35
    then record k { rshift_enable = true }
    else if i == 0x1C
    then k
    else if i == 0x37
    then k
    else typed

-- A key goes up.
unfoldable pub key_up : ℕ → Keyboard → Keyboard
key_up i k =
    if i == 0x29
    then record k { lshift_enable = false }
    else if i == 0x35
    then record k { rshift_enable = false }
    else k

-- `i--` wraps on a byte.
unfoldable pub isr_kbd_int : (behind : ℕ → ℕ) (scan : ℕ) → Keyboard → Keyboard
unfolding key_down key_up
isr_kbd_int behind scan k =
    let i = (scan + 0xFF) % 0x100 in
    let down = key_down behind i k in if ltb i 0x80 then down else key_up (i - 0x80) k
