-- ===== src/Descriptors/Closing.antt =====
-- What `sys_close` of kern/syscalls/syscalls.c leaves behind.
use creeks_old.Base.{
  ℕ, zero, suc, ◌≤◌, ◌<◌, ◌≡◌, ◌≢◌, ◌∙◌, sym, ap, none, some, List, [], ◌∷◌, get_elem?, ltb, arith,
  Bool-cases, inl, inr,
}
use mathlib.Core.Option.{some-injective}
use creeks_old.Descriptors.{
  OpenFile, Files, Walk, found, find_open, Answer, answers, null_pointer, close_open, on_file,
  sys_read, sys_close, sys_open,
}
use creeks_old.Descriptors.Reading.{find_open-set_open, found_file_lem}
use creeks_old.Descriptors.Lowest.{sys_open-LowestTaken}

-- A descriptor without a file.
abbrev closed : OpenFile
closed = record { file = none; ptr = 0 }

found-get_elem? :
    (fd : ℕ) (of : OpenFile) (chain : List OpenFile)
    → find_open fd chain ≡ found of
    → get_elem? chain fd ≡ some of
unfolding find_open
found-get_elem? fd of [] e = absurd (ground (arith, e))
found-get_elem? zero of (x ∷ next) e = ground (arith, e)
found-get_elem? (suc fd) of (x ∷ []) e = absurd (ground (arith, e))
found-get_elem? (suc fd) of (x ∷ (y ∷ next)) e = found-get_elem? fd of (y ∷ next) e

closed_file_lem :
    (call : OpenFile → ℕ → Answer) (walk : Walk)
    → walk ≡ found closed
    → on_file call walk ≡ null_pointer
unfolding on_file
closed_file_lem call walk e = ap (on_file call) e

-- Closing a descriptor of an open file succeeds and hands the file's buffer to kfree; afterwards
-- reading from the descriptor and closing it again both go through a null pointer.
pub closed_descriptor_faults :
    (fd fp : ℕ) (of : OpenFile) (st : Files)
    → find_open fd st.fd ≡ found of
    → of.file ≡ some fp
    → (st' : Files) × ((sys_close fd st ≡ answers ((st.files fp).mmap) st')
        × (((u_buf n : ℕ) → sys_read fd u_buf n st' ≡ null_pointer)
            × (sys_close fd st' ≡ null_pointer)))
unfolding sys_close sys_read close_open
closed_descriptor_faults fd fp of st e f =
    let free = find_open-set_open fd of closed st.fd e in
    (
      _,
      (
        found_file_lem (λ o p. close_open fd p st) (find_open fd st.fd) of fp e f,
        (λ u_buf n. closed_file_lem _ _ free, closed_file_lem _ _ free),
      ),
    )

not_above :
    (chain : List OpenFile) (fd fd' : ℕ)
    → ((i : ℕ) → i < fd' → (o : OpenFile) × ((get_elem? chain i ≡ some o) × (o.file ≢ none)))
    → get_elem? chain fd ≡ some closed
    → fd' ≤ fd
not_above chain fd fd' below free = elim (Bool-cases (ltb fd fd')) [
  | inl h ↦
      let (o, (at, used)) = below fd (ground (arith, h)) in
      absurd (used (ap (λ (x : OpenFile). x.file) (some-injective _ _ (sym at ∙ free))))
  | inr h ↦ ground (arith, h)
]

-- A descriptor that was closed is given out again: opening a file right after closing fd answers fd
-- or a lower number, whatever the file.
pub sys_open-sys_close :
    (inode_size read_file : ℕ → ℕ) (fd fp : ℕ) (of : OpenFile) (st : Files)
    → find_open fd st.fd ≡ found of
    → of.file ≡ some fp
    → (st' : Files) × ((sys_close fd st ≡ answers ((st.files fp).mmap) st')
        × ((other : ℕ)
            → (fd' : ℕ) × ((st'' : Files) × ((sys_open inode_size read_file (some other) st'
                    ≡ (some fd', st''))
                  × (fd' ≤ fd)))))
unfolding sys_close close_open
sys_open-sys_close inode_size read_file fd fp of st e f =
    let free = found-get_elem? fd closed _ (find_open-set_open fd of closed st.fd e) in
    (
      _,
      (
        found_file_lem (λ o p. close_open fd p st) (find_open fd st.fd) of fp e f,
        λ other.
            let (fd', (st'', (run, (l, rest)))) =
              sys_open-LowestTaken inode_size read_file other _ in
            (fd', (st'', (run, not_above _ fd fd' l.below free))),
      ),
    )
