-- ===== src/Console/Reading.antt =====
-- The reading side of the console, kern/syscalls/sys_console_read.c, for a process whose console has a
-- terminal. Its loops wait for other processes: what stands before them and behind them are functions
-- of their own, and what happens meanwhile is typed in between.
use creeks_old.Base.{
  ℕ, zero, suc, ◌+◌, ◌≤◌, ◌<◌, ◌≡◌, ◌≢◌, ◌∙◌, refl, sym, ap, subst, inl, inr, true, false,
  Bool-cases, Option, none, some, List, [], ◌∷◌, length, All, ◌==◌, ==_of_ne, eq_of_==, ne_of_==,
  if◌then◌else◌, update, update_self, update_ne, arith,
}
use creeks_old.Base.Options.{◌>>=◌}
use creeks_old.Libc.{Bytes, strlen, strlen_loop}
use creeks_old.Process.{is_alive}
use creeks_old.Console.{Consoles, Vconsole, Terminal, inbufsize, reader, set_console, putc_console}
use creeks_old.Console.Line.{Holds, IsEditing, edits, type_bytes, type_bytes-IsComplete}

-- The process becomes the terminal's reader, and locks its buffer.
unfoldable pub start_read : ℕ → Consoles → Consoles
start_read p k =
    let v = k.consoles p in
    let t = k.terminals v.term in
    set_console p (record v { inlock = true })
      (record k { terminals = update k.terminals v.term (record t { pread = some p }) })

-- `strcpy(u_buf, current->console->inb)`, from `i` on.
unfoldable pub copy_line : (fuel i u_buf : ℕ) (inb : ℕ → ℕ) → Bytes → Option (ℕ × Bytes)
copy_line zero i u_buf inb m = none
copy_line (suc fuel) i u_buf inb m =
    let copied = update m (u_buf + i) (inb i) in
    let rest = copy_line fuel (i + 1) u_buf inb copied in
    if inb i == 0 then some (i, copied) else rest

-- Once the buffer is not locked any more; `none` while it is.
unfoldable pub end_read : (fuel u_buf p : ℕ) → Consoles → Bytes → Option (ℕ × Bytes)
unfolding copy_line strlen
end_read fuel u_buf p k m =
    let returned =
      copy_line fuel 0 u_buf (k.consoles p).inb m
      >>= (λ r. let (_, copied) = r in strlen fuel u_buf copied >>= (λ n. some (n, copied))) in
    if (k.consoles p).inlock then none else returned

reader_lem :
    (p t : ℕ) (k : Consoles)
    → k.current_term ≡ some t
    → (k.terminals t).pread ≡ some p
    → is_alive (k.states p) ≡ true
    → reader k ≡ some p
unfolding reader
reader_lem p t k current pread alive = rw (current, pread, alive) refl

start_read-IsEditing :
    (p t : ℕ) (k : Consoles)
    → k.current_term ≡ some t
    → (k.consoles p).term ≡ t
    → is_alive (k.states p) ≡ true
    → (k.consoles p).mode ≢ 0
    → (k.consoles p).keypos ≡ 0
    → IsEditing p [] (start_read p k)
unfolding start_read reader Holds
start_read-IsEditing p t k current term alive mode front =
    let v = k.consoles p in
    let mine = update_self k.consoles p (record v { inlock = true }) in
    let there : (update k.terminals v.term (record (k.terminals v.term) { pread = some p }) t).pread
        ≡ some p =
      ap (λ x. (update k.terminals v.term (record (k.terminals v.term) { pread = some p }) x).pread)
        (sym term)
      ∙ ap (λ (u : Terminal). u.pread)
          (update_self k.terminals v.term (record (k.terminals v.term) { pread = some p })) in
    record {
      reading = reader_lem p t (start_read p k) current there alive;
      buffered = subst (λ (u : Vconsole). u.mode ≢ 0) (sym mine) mode;
      position = ap (λ (u : Vconsole). u.keypos) mine ∙ front;
      buffer = tt;
      fits = omega arith;
    }

copy_line_lem :
    (fuel i n u_buf : ℕ) (inb : ℕ → ℕ) (m : Bytes)
    → i ≤ n
    → n < i + fuel
    → ((j : ℕ) → i ≤ j → j < n → inb j ≢ 0)
    → inb n ≡ 0
    → (m' : Bytes) × ((copy_line fuel i u_buf inb m ≡ some (n, m'))
        × (((j : ℕ) → i ≤ j → j ≤ n → m' (u_buf + j) ≡ inb j)
            × ((a : ℕ) → a < u_buf + i → m' a ≡ m a)))
unfolding copy_line
copy_line_lem zero i n u_buf inb m le h nz z = absurd (omega (arith, le, h))
copy_line_lem (suc fuel) i n u_buf inb m le h nz z =
    let copied = update m (u_buf + i) (inb i) in
    elim (Bool-cases (i == n)) [
      | inl last ↦
          let e : i ≡ n = eq_of_== i n last in
          let stop : (inb i == 0) ≡ true = ap (λ x. inb x == 0) e ∙ ap (λ x. x == 0) z in
          rw stop (
            copied,
            (
              ap (λ x. some (x, copied)) e,
              (
                λ j l l'.
                    let q : j ≡ i = omega (arith, l, l', e) in
                    rw q (update_self m (u_buf + i) (inb i)),
                λ a l. update_ne m (u_buf + i) a (inb i) (λ q. omega (arith, l, q)),
              ),
            ),
          )
      | inr more ↦
          let ne = ne_of_== i n more in
          let go : (inb i == 0) ≡ false =
            ==_of_ne (inb i) 0 (nz i (omega arith) (omega (arith, le, ne))) in
          let (m', (runs, (same, below))) =
            copy_line_lem fuel (i + 1) n u_buf inb copied (omega (arith, le, ne)) (omega (arith, h))
              (λ j l l'. nz j (omega (arith, l)) l') z in
          rw go (
            m',
            (
              runs,
              (
                λ j l l'. elim (Bool-cases (j == i)) [
                  | inl first ↦
                      let q : j ≡ i = eq_of_== j i first in
                      rw q (below (u_buf + i) (omega arith) ∙ update_self m (u_buf + i) (inb i))
                  | inr later ↦ same j (omega (arith, l, ne_of_== j i later)) l'
                ],
                λ a l.
                    below a (omega (arith, l))
                    ∙ update_ne m (u_buf + i) a (inb i) (λ q. omega (arith, l, q)),
              ),
            ),
          )
    ]

length_copied :
    (fuel i n s : ℕ) (m : Bytes)
    → n < fuel
    → ((j : ℕ) → j < n → m (s + j) ≢ 0)
    → m (s + n) ≡ 0
    → strlen_loop fuel i s m ≡ some (i + n)
unfolding strlen_loop
length_copied zero i n s m h nz z = absurd (omega (arith, h))
length_copied (suc fuel) i zero s m h nz z =
    let here : s + 0 ≡ s = omega arith in
    let stop : (m s == 0) ≡ true = ap (λ x. x == 0) (ap m (sym here) ∙ z) in
    let same : i + 0 ≡ i = omega arith in rw (stop, same) refl
length_copied (suc fuel) i (suc n) s m h nz z =
    let here : s + 0 ≡ s = omega arith in
    let go : (m s == 0) ≡ false = ==_of_ne (m s) 0 (λ e. nz 0 (omega arith) (ap m here ∙ e)) in
    let next : (j : ℕ) → s + 1 + j ≡ s + suc j = λ j. omega arith in
    let total : i + suc n ≡ i + 1 + n = omega arith in
    rw (go, total)
      (length_copied fuel (i + 1) n (s + 1) m (omega (arith, h))
        (λ j l e. nz (suc j) (omega (arith, l)) (ap m (sym (next j)) ∙ e)) (ap m (next n) ∙ z))

-- What a reader's buffer is given: the line and its newline, of bytes that are not zero.
nonzero :
    (inb : ℕ → ℕ) (line : List ℕ)
    → Holds inb line
    → All (λ c. c ≢ 0) line
    → (j : ℕ) → j < length line
    → inb j ≢ 0
unfolding Holds
nonzero inb [] holds all j h = absurd (omega (arith, h))
nonzero inb (b ∷ line) (at, holds) (ne, all) j h = elim (Bool-cases (j == length line)) [
  | inl last ↦ λ z. ne (sym at ∙ (ap inb (sym (eq_of_== j (length line) last)) ∙ z))
  | inr before ↦ nonzero inb line holds all j (omega (arith, h, ne_of_== j (length line) before))
]

Holds-same :
    (f g : ℕ → ℕ) (line : List ℕ)
    → ((j : ℕ) → j < length line → g j ≡ f j)
    → Holds f line
    → Holds g line
unfolding Holds
Holds-same f g [] e holds = tt
Holds-same f g (b ∷ line) e (at, holds) =
    (e (length line) (omega arith) ∙ at, Holds-same f g line (λ j h. e j (omega (arith, h))) holds)

-- When a process whose console has the current terminal, in a buffered mode and with nothing typed so
-- far, reads from the console, and then bytes other than newline and zero and at last a newline are
-- typed, sys_console_read ends with the length of the line and leaves in the process's buffer what a
-- line editor makes of the bytes, with the newline and a zero behind it. The bytes, the newline and
-- the zero are at most the 4096 that the console's buffer has room for.
pub console_read-edits :
    (p t u_buf : ℕ) (cs : List ℕ) (k : Consoles) (m : Bytes)
    → k.current_term ≡ some t
    → (k.consoles p).term ≡ t
    → is_alive (k.states p) ≡ true
    → (k.consoles p).mode ≢ 0
    → (k.consoles p).keypos ≡ 0
    → All (λ c. c ≢ 10) cs
    → All (λ c. c ≢ 0) (edits cs [])
    → length cs + 2 ≤ inbufsize
    → let line = edits cs [] in
      let k' = putc_console 10 (type_bytes cs (start_read p k)) in
      (m' : Bytes) × ((end_read (length line + 2) u_buf p k' m ≡ some (length line + 1, m'))
        × (Holds (λ j. m' (u_buf + j)) (10 ∷ line) × (m' (u_buf + (length line + 1)) ≡ 0)))
unfolding end_read strlen
console_read-edits p t u_buf cs k m current term alive mode front no_newline no_zero room =
    let line = edits cs [] in
    let k' = putc_console 10 (type_bytes cs (start_read p k)) in
    let editing = start_read-IsEditing p t k current term alive mode front in
    let complete = type_bytes-IsComplete p cs (start_read p k) no_newline room editing in
    let inb = (k'.consoles p).inb in
    let ten_apart : ◌≢◌ {A = ℕ} 10 0 = λ e. omega (arith, e) in
    let bytes : (j : ℕ) → j < length line + 1 → inb j ≢ 0 =
      λ j h. nonzero inb (10 ∷ line) complete.buffer (ten_apart, no_zero) j (omega (arith, h)) in
    let end : inb (length line + 1) ≡ 0 =
      let e : length line + 1 ≡ suc (length line) = omega arith in rw e complete.end in
    let (m', (runs, (same, below))) =
      copy_line_lem (length line + 2) 0 (length line + 1) u_buf inb m (omega arith) (omega arith)
        (λ j l h. bytes j h) end in
    let closed : m' (u_buf + (length line + 1)) ≡ 0 =
      same (length line + 1) (omega arith) (omega arith) ∙ end in
    let front_of : 0 + (length line + 1) ≡ length line + 1 = omega arith in
    let counted : strlen_loop (length line + 2) 0 u_buf m' ≡ some (length line + 1) =
      length_copied (length line + 2) 0 (length line + 1) u_buf m' (omega arith)
        (λ j h e. bytes j h (sym (same j (omega arith) (omega (arith, h))) ∙ e)) closed
      ∙ ap some front_of in
    (
      m',
      (
        rw (complete.unlocked, runs, counted) refl,
        (
          Holds-same inb (λ j. m' (u_buf + j)) (10 ∷ line)
              (λ j h. same j (omega arith) (omega (arith, h))) complete.buffer,
          closed,
        ),
      ),
    )
