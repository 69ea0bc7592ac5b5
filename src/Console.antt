-- ===== src/Console.antt =====
-- The input side of the console, kern/console.c and kern/console.h. `consoles p` is the console of
-- process p, terminals are indexed. The code does not test an index into `inb`: the model's buffer is
-- a function that means the code's below `inbufsize`, and the theorems are about lines that fit.
pub mod Line
pub mod Reading
pub mod Tests
use creeks_old.Base.{
  ℕ, zero, suc, ◌+◌, ◌-◌, Bool, true, false, Option, none, some, List, [], ◌∷◌, ◌==◌, not,
  if◌then◌else◌, update,
}
use creeks_old.Process.{State, is_alive}
use creeks_old.Screen.{Screen, putcar}

-- `INBUFSIZE`
abbrev pub inbufsize : ℕ
inbufsize = 4096

-- `struct terminal`, with processes by their number
pub record Terminal : Type 0 where
  pub pread : Option ℕ
  pub pwrite : Option ℕ

-- `struct vconsole`
pub record Vconsole : Type 0 where
  pub term : ℕ
  -- `char inb[INBUFSIZE]`; a write from 4096 on would meet the fields below
  pub inb : ℕ → ℕ
  pub inlock : Bool
  pub keypos : ℕ
  pub mode : ℕ

pub record Consoles : Type 0 where
  pub terminals : ℕ → Terminal
  pub consoles : ℕ → Vconsole
  pub current_term : Option ℕ
  pub states : ℕ → State
  pub screen : Screen

-- `putcar(c)`
abbrev pub echo : ℕ → Consoles → Consoles
echo c k = record k { screen = putcar c k.screen }

-- `if (p->console->mode == 1) putcar(c);`
abbrev pub echo_line : ℕ → ℕ → Consoles → Consoles
echo_line p c k = if (k.consoles p).mode == 1 then echo c k else k

abbrev pub set_console : ℕ → Vconsole → Consoles → Consoles
set_console p v k = record k { consoles = update k.consoles p v }

-- `p->console->term->pread = 0;`
abbrev pub release_reader : ℕ → Consoles → Consoles
release_reader term k = record k {
  terminals = update k.terminals term (record (k.terminals term) { pread = none });
}

-- Mode 0: the byte is given to the reader at once.
unfoldable pub put_unbuffered : ℕ → ℕ → Consoles → Consoles
put_unbuffered p c k =
    let v = k.consoles p in
    release_reader v.term
      (set_console p (record v { inb = update v.inb 0 c; inlock = false }) (echo c k))

-- `inb[keypos--] = 0;`
unfoldable pub erase : ℕ → ℕ → Consoles → Consoles
erase p c k =
    let v = k.consoles p in
    let erased = record v { inb = update v.inb v.keypos 0; keypos = v.keypos - 1 } in
    echo_line p c (set_console p erased k)

-- A backspace takes the last byte back.
unfoldable pub put_backspace : ℕ → ℕ → Consoles → Consoles
unfolding erase
put_backspace p c k = if (k.consoles p).keypos == 0 then k else erase p c k

-- A newline ends the line and wakes the reader.
unfoldable pub put_newline : ℕ → ℕ → Consoles → Consoles
put_newline p c k =
    let v = k.consoles p in
    let line = update (update v.inb v.keypos c) (v.keypos + 1) 0 in
    release_reader v.term
      (set_console p (record v { inb = line; inlock = false; keypos = 0 }) (echo_line p c k))

-- Any other byte is appended.
unfoldable pub put_byte : ℕ → ℕ → Consoles → Consoles
put_byte p c k =
    let v = k.consoles p in
    set_console p (record v { inb = update v.inb v.keypos c; keypos = v.keypos + 1 })
      (echo_line p c k)

-- A byte for the process that reads.
unfoldable pub put_reader : ℕ → ℕ → Consoles → Consoles
unfolding put_unbuffered put_backspace put_newline put_byte
put_reader p c k =
    if (k.consoles p).mode == 0
    then put_unbuffered p c k
    else if c == 8
    then put_backspace p c k
    else if c == 10
    then put_newline p c k
    else put_byte p c k

-- The process that reads from the current terminal, if it is alive.
unfoldable pub reader : Consoles → Option ℕ
reader k = elim k.current_term [
  | none ↦ none
  | some t ↦ elim (k.terminals t).pread [
    | none ↦ none
    | some p ↦ if is_alive (k.states p) then some p else none
  ]
]

-- Without a reader the byte is only shown.
unfoldable pub put_for : Option ℕ → ℕ → Consoles → Consoles
unfolding put_reader
put_for none c k = echo c k
put_for (some p) c k = put_reader p c k

unfoldable pub putc_console : ℕ → Consoles → Consoles
unfolding put_for reader
putc_console c k = put_for (reader k) c k
