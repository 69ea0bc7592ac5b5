-- ===== src/Console/Line.antt =====
-- The line that a process reads in the buffered modes of kern/console.c: bytes are appended, a
-- backspace takes the last one back, a newline ends the line.
use creeks_old.Base.{
  ℕ, suc, ◌+◌, ◌-◌, ◌≤◌, ◌<◌, ◌≡◌, ◌≢◌, ◌∙◌, refl, sym, ap, subst, inl, inr, false, none, some,
  List, [], ◌∷◌, length, All, ◌==◌, ==_of_ne, eq_of_==, ne_of_==, Bool-cases, if◌then◌else◌, update,
  update_self, arith,
}
use creeks_old.Screen.{Screen, putcar}
use creeks_old.Console.{
  Consoles, Vconsole, Terminal, echo_line, put_reader, put_byte, put_backspace, erase, put_for,
  put_newline, reader, set_console, release_reader, putc_console, inbufsize,
}

-- A line being typed is a list, its last byte first.
unfoldable pub edit : ℕ → List ℕ → List ℕ
edit c [] = if c == 8 then [] else c ∷ []
edit c (b ∷ line) = if c == 8 then line else c ∷ b ∷ line

unfoldable pub edits : List ℕ → List ℕ → List ℕ
unfolding edit
edits [] line = line
edits (c ∷ cs) line = edits cs (edit c line)

-- The buffer holds the line.
unfoldable pub Holds : (ℕ → ℕ) → List ℕ → Type 0
Holds inb [] = Unit
Holds inb (b ∷ line) = (inb (length line) ≡ b) × Holds inb line

-- Process `p` reads from the current terminal in a buffered mode, and the line so far is `line`, which
-- the buffer has room for.
pub record IsEditing (p : ℕ) (line : List ℕ) (k : Consoles) : Type 0 where
  pub reading : reader k ≡ some p
  pub buffered : (k.consoles p).mode ≢ 0
  pub position : (k.consoles p).keypos ≡ length line
  pub buffer : Holds (k.consoles p).inb line
  pub fits : length line ≤ inbufsize

Holds-update :
    (inb : ℕ → ℕ) (line : List ℕ) (i v : ℕ)
    → length line ≤ i
    → Holds inb line
    → Holds (update inb i v) line
unfolding Holds
Holds-update inb [] i v h holds = tt
Holds-update inb (b ∷ line) i v h (e, holds) =
    (ground arith, Holds-update inb line i v (omega arith) holds)

echo_line_lem :
    (p c : ℕ) (k : Consoles) → (s : Screen) × (echo_line p c k ≡ record k { screen = s })
echo_line_lem p c k = elim (Bool-cases ((k.consoles p).mode == 1)) [
  | inl e ↦ (putcar c k.screen, rw e refl)
  | inr e ↦ (k.screen, rw e refl)
]

for_reader : (p c : ℕ) (k : Consoles) → reader k ≡ some p → putc_console c k ≡ put_reader p c k
unfolding putc_console put_for
for_reader p c k e = ap (λ r. put_for r c k) e

-- A console of the same process and mode, with another buffer and position.
edited :
    (p : ℕ) (line line' : List ℕ) (k : Consoles) (inb : ℕ → ℕ) (keypos : ℕ) (s : Screen)
    → IsEditing p line k
    → keypos ≡ length line'
    → length line' ≤ inbufsize
    → Holds inb line'
    → IsEditing p line' (
        set_console p
          (record (k.consoles p) { inb = inb; keypos = keypos })
          (record k { screen = s }))
unfolding reader
edited p line line' k inb keypos s e position fits holds =
    let v = record (k.consoles p) { inb = inb; keypos = keypos } in
    let mine = update_self k.consoles p v in
    record {
      reading = e.reading;
      buffered = λ z. e.buffered (ap (λ (w : Vconsole). w.mode) (sym mine) ∙ z);
      position = ap (λ (w : Vconsole). w.keypos) mine ∙ position;
      buffer = subst (λ (w : Vconsole). Holds w.inb line') (sym mine) holds;
      fits = fits;
    }

put_byte-IsEditing :
    (p c : ℕ) (line : List ℕ) (k : Consoles)
    → IsEditing p line k
    → length line < inbufsize
    → IsEditing p (c ∷ line) (put_byte p c k)
unfolding put_byte Holds
put_byte-IsEditing p c line k e more =
    let (s, shown) = echo_line_lem p c k in
    let v = k.consoles p in
    let inb = update v.inb v.keypos c in
    let at_end : length line ≡ v.keypos = sym e.position in
    subst
      (λ (x : Consoles).
        IsEditing p (c ∷ line) (set_console p (record v { inb = inb; keypos = v.keypos + 1 }) x))
      (sym shown)
      (edited p line (c ∷ line) k inb (v.keypos + 1) s e (omega (arith, at_end))
        (omega (arith, more))
        (
          ap inb at_end ∙ update_self v.inb v.keypos c,
          Holds-update v.inb line v.keypos c (omega (arith, at_end)) e.buffer,
        ))

erase-IsEditing :
    (p b : ℕ) (line : List ℕ) (k : Consoles)
    → IsEditing p (b ∷ line) k
    → IsEditing p line (erase p 8 k)
unfolding erase Holds
erase-IsEditing p b line k e =
    let v = k.consoles p in
    let inb = update v.inb v.keypos 0 in
    let (s, shown) =
      echo_line_lem p 8 (set_console p (record v { inb = inb; keypos = v.keypos - 1 }) k) in
    let end = e.position in
    subst (λ (x : Consoles). IsEditing p line x) (sym shown)
      (edited p (b ∷ line) line k inb (v.keypos - 1) s e (omega (arith, end))
        (omega (arith, e.fits))
        (Holds-update v.inb line v.keypos 0 (omega (arith, end)) e.buffer.1))

put_backspace-IsEditing :
    (p b : ℕ) (line : List ℕ) (k : Consoles)
    → IsEditing p (b ∷ line) k
    → IsEditing p line (put_backspace p 8 k)
unfolding put_backspace
put_backspace-IsEditing p b line k e =
    let some_byte : ((k.consoles p).keypos == 0) ≡ false = ground (arith, e.position) in
    rw some_byte (erase-IsEditing p b line k e)

nothing_to_erase : (p : ℕ) (k : Consoles) → IsEditing p [] k → put_backspace p 8 k ≡ k
unfolding put_backspace
nothing_to_erase p k e = rw e.position refl

module _ (p : ℕ) (k : Consoles) (buffered : (k.consoles p).mode ≢ 0) where
  to_backspace : put_reader p 8 k ≡ put_backspace p 8 k
  unfolding put_reader
  to_backspace = rw (==_of_ne (k.consoles p).mode 0 buffered) refl

  to_newline : put_reader p 10 k ≡ put_newline p 10 k
  unfolding put_reader
  to_newline = rw (==_of_ne (k.consoles p).mode 0 buffered) refl

  to_byte : (c : ℕ) → c ≢ 8 → c ≢ 10 → put_reader p c k ≡ put_byte p c k
  unfolding put_reader
  to_byte c b n = rw (==_of_ne (k.consoles p).mode 0 buffered, ==_of_ne c 8 b, ==_of_ne c 10 n) refl

taken_back :
    (p : ℕ) (line : List ℕ) (k : Consoles)
    → IsEditing p line k
    → IsEditing p (edit 8 line) (put_backspace p 8 k)
unfolding edit
taken_back p [] k e = subst (λ x. IsEditing p [] x) (sym (nothing_to_erase p k e)) e
taken_back p (b ∷ line) k e = put_backspace-IsEditing p b line k e

edit_byte : (c : ℕ) (line : List ℕ) → c ≢ 8 → c ∷ line ≡ edit c line
unfolding edit
edit_byte c [] h = rw (==_of_ne c 8 h) refl
edit_byte c (b ∷ line) h = rw (==_of_ne c 8 h) refl

-- One byte other than a newline edits the line.
typed_byte :
    (p c : ℕ) (line : List ℕ) (k : Consoles)
    → c ≢ 10
    → length line < inbufsize
    → IsEditing p line k
    → IsEditing p (edit c line) (putc_console c k)
typed_byte p c line k ne more e =
    subst (IsEditing p (edit c line)) (sym (for_reader p c k e.reading))
      (elim (Bool-cases (c == 8)) [
        | inl back ↦
            let b : 8 ≡ c = sym (eq_of_== c 8 back) in
            subst (λ x. IsEditing p (edit x line) (put_reader p x k)) b
              (subst (IsEditing p (edit 8 line)) (sym (to_backspace p k e.buffered))
                (taken_back p line k e))
        | inr byte ↦
            let b = ne_of_== c 8 byte in
            subst (IsEditing p (edit c line)) (sym (to_byte p k e.buffered c b ne)) (
              subst (λ l. IsEditing p l (put_byte p c k)) (edit_byte c line b)
                (put_byte-IsEditing p c line k e more))
      ])

length-edit : (c : ℕ) (line : List ℕ) → length (edit c line) ≤ length line + 1
unfolding edit
length-edit c [] = ground arith
length-edit c (b ∷ line) = ground arith

-- `putc_console` at each byte.
unfoldable pub type_bytes : List ℕ → Consoles → Consoles
type_bytes [] k = k
type_bytes (c ∷ cs) k = type_bytes cs (putc_console c k)

-- While a process reads in a buffered mode, typing bytes without a newline leaves in its buffer what
-- a line editor makes of them, with the position at the line's end: each byte is appended, and a
-- backspace takes the last byte back or, on an empty line, does nothing. The line so far and the bytes
-- are together at most the 4096 that the buffer has room for, which the code does not test.
pub type_bytes-IsEditing :
    (p : ℕ) (cs line : List ℕ) (k : Consoles)
    → All (λ c. c ≢ 10) cs
    → length line + length cs ≤ inbufsize
    → IsEditing p line k
    → IsEditing p (edits cs line) (type_bytes cs k)
unfolding edits type_bytes
type_bytes-IsEditing p [] line k ok room e = e
type_bytes-IsEditing p (c ∷ cs) line k (ne, ok) room e =
    type_bytes-IsEditing p cs (edit c line) (putc_console c k) ok
      (omega (arith, room, length-edit c line)) (typed_byte p c line k ne (omega (arith, room)) e)

-- The process's line is complete: the buffer holds it with the newline and a zero byte, the reader
-- is released and the next line starts at the front.
pub record IsComplete (p : ℕ) (line : List ℕ) (k : Consoles) : Type 0 where
  pub buffer : Holds (k.consoles p).inb (10 ∷ line)
  pub end : (k.consoles p).inb (suc (length line)) ≡ 0
  pub unlocked : (k.consoles p).inlock ≡ false
  pub position : (k.consoles p).keypos ≡ 0
  pub released : (k.terminals (k.consoles p).term).pread ≡ none

put_newline-IsComplete :
    (p : ℕ) (line : List ℕ) (k : Consoles)
    → IsEditing p line k
    → IsComplete p line (put_newline p 10 k)
unfolding put_newline Holds
put_newline-IsComplete p line k e =
    let (s, shown) = echo_line_lem p 10 k in
    let v = k.consoles p in
    let n = v.keypos in
    let inb = update (update v.inb n 10) (n + 1) 0 in
    let w = record v { inb = inb; inlock = false; keypos = 0 } in
    let at_end : length line ≡ n = sym e.position in
    let mine = update_self k.consoles p w in
    subst (λ (x : Consoles). IsComplete p line (release_reader v.term (set_console p w x)))
      (sym shown)
      record {
        buffer =
            subst (λ (u : Vconsole). Holds u.inb (10 ∷ line)) (sym mine)
              (
                ground (arith, at_end),
                Holds-update (update v.inb n 10) line (n + 1) 0 (omega (arith, at_end))
                    (Holds-update v.inb line n 10 (omega (arith, at_end)) e.buffer),
              );
        end = ap (λ (u : Vconsole). u.inb (suc (length line))) mine ∙ ground (arith, at_end);
        unlocked = ap (λ (u : Vconsole). u.inlock) mine;
        position = ap (λ (u : Vconsole). u.keypos) mine;
        released =
            ap
              (λ (u : Vconsole).
                (update k.terminals v.term (record (k.terminals v.term) { pread = none })
                  u.term).pread)
              mine
            ∙ ap (λ (u : Terminal). u.pread)
                (update_self k.terminals v.term (record (k.terminals v.term) { pread = none }));
      }

-- A newline after the bytes completes the line: the reader's buffer holds the edited line, the
-- newline and a zero byte, the terminal has no reader any more, the lock is open and the position
-- is back at the front. The bytes, the newline and the zero are at most 4096.
pub type_bytes-IsComplete :
    (p : ℕ) (cs : List ℕ) (k : Consoles)
    → All (λ c. c ≢ 10) cs
    → length cs + 2 ≤ inbufsize
    → IsEditing p [] k
    → IsComplete p (edits cs []) (putc_console 10 (type_bytes cs k))
type_bytes-IsComplete p cs k ok room e =
    let t = type_bytes cs k in
    let typed = type_bytes-IsEditing p cs [] k ok (omega (arith, room)) e in
    let line = edits cs [] in
    subst (IsComplete p line)
      (sym (for_reader p 10 t typed.reading ∙ to_newline p t typed.buffered))
      (put_newline-IsComplete p line t typed)
