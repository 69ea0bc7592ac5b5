-- ===== src/Shell.antt =====
-- What the shell, usr/shell.c, makes of a command line: a command of its own, or a program with the
-- words of the line as its arguments. A line is a
-- list of bytes up to its zero; a pointer into it is the rest of the line.
pub mod Words
pub mod Splitting
mod Tests
use creeks_old.Base.{
  ℕ, zero, suc, ◌+◌, ◌-◌, Bool, true, false, Option, none, some, List, [], ◌∷◌, length, ◌==◌, ◌&&◌,
  ◌||◌, not, if◌then◌else◌,
}
use creeks_old.Base.Options.{◌>>=◌}

-- `*p == ' ' || *p == '\t'`
abbrev pub is_blank : ℕ → Bool
is_blank c = c == 32 || c == 9

-- `while (*p == ' ' || *p == '\t') p++;`
unfoldable pub skip_blanks : List ℕ → List ℕ
skip_blanks [] = []
skip_blanks (c ∷ cs) = let rest = skip_blanks cs in if is_blank c then rest else c ∷ cs

-- `while (*p && *p != '\n' && *p != ' ' && *p != '\t') p++;`
unfoldable pub skip_word : List ℕ → List ℕ
skip_word [] = []
skip_word (c ∷ cs) = let rest = skip_word cs in if c == 10 || is_blank c then c ∷ cs else rest

-- `while (*end_p && *end_p != '\n')`, which counts the words; `none` without fuel.
unfoldable pub count_words : (fuel : ℕ) (end_p : List ℕ) (ac : ℕ) → Option ℕ
unfolding skip_word skip_blanks
count_words zero end_p ac = none
count_words (suc fuel) [] ac = some ac
count_words (suc fuel) (c ∷ cs) ac =
    let rest = count_words fuel (skip_blanks (skip_word (c ∷ cs))) (ac + 1) in
    if c == 10 then some ac else rest

-- `strncmp(s, beg_p, n) == 0` for the first `n` bytes of a name.
unfoldable pub starts : (name beg_p : List ℕ) → Bool
starts [] cs = true
starts (d ∷ ds) [] = false
starts (d ∷ ds) (c ∷ cs) = (d == c) && starts ds cs

-- The tests for "exit", "ls", "cd", "pwd", "mkd" and "help".
unfoldable pub is_builtin : List ℕ → Bool
unfolding starts
is_builtin beg_p =
    starts (101 ∷ 120 ∷ 105 ∷ 116 ∷ []) beg_p
    || (starts (108 ∷ 115 ∷ []) beg_p
        || (starts (99 ∷ 100 ∷ []) beg_p
            || (starts (112 ∷ 119 ∷ 100 ∷ []) beg_p
                || (starts (109 ∷ 107 ∷ 100 ∷ []) beg_p
                    || starts (104 ∷ 101 ∷ 108 ∷ 112 ∷ []) beg_p))))

abbrev pub bin_cat : List ℕ
bin_cat = 47 ∷ 98 ∷ 105 ∷ 110 ∷ 47 ∷ 99 ∷ 97 ∷ 116 ∷ []

abbrev pub bin_kill : List ℕ
bin_kill = 47 ∷ 98 ∷ 105 ∷ 110 ∷ 47 ∷ 107 ∷ 105 ∷ 108 ∷ 108 ∷ []

-- `av[0]` for "cat" and "kill".
unfoldable pub program : List ℕ → List ℕ
unfolding starts
program av0 =
    if starts (99 ∷ 97 ∷ 116 ∷ []) av0
    then bin_cat
    else (if starts (107 ∷ 105 ∷ 108 ∷ 108 ∷ []) av0 then bin_kill else av0)

-- What the shell does with a line: a command of its own, nothing, or `exec(av[0], av)`.
pub data Command : Type 0 where
  builtin nothing : Command
  executes : (av : List (List ℕ)) → Command

-- `if (ac > 1)`
unfoldable pub exec_words : List (List ℕ) → Command
unfolding program
exec_words [] = nothing
exec_words (av0 ∷ av) = executes (program av0 ∷ av)

-- `strncpy` of usr/libc/libc.c writes `dst[i] = src[i++]`, whose order C leaves open: what it copies of
-- `n` bytes from a place is a parameter.
module _ (strncpy : ℕ → List ℕ → List ℕ) where
  -- The bytes from `beg_p` to `end_p`.
  abbrev pub between : (beg_p end_p : List ℕ) → List ℕ
  between beg_p end_p = strncpy (length beg_p - length end_p) beg_p

  -- The loop that copies the words.
  unfoldable pub copy_words : (left : ℕ) (end_p : List ℕ) → List (List ℕ)
  unfolding skip_blanks skip_word
  copy_words zero end_p = []
  copy_words (suc left) end_p =
      let beg_p = skip_blanks end_p in
      between beg_p (skip_word beg_p) ∷ copy_words left (skip_word beg_p)

  -- The words once they are counted; `ac` counts the null pointer too.
  abbrev pub copy_counted : (beg_p : List ℕ) → Option ℕ → Option (List (List ℕ))
  copy_counted beg_p none = none
  copy_counted beg_p (some ac) = some (copy_words (ac - 1) beg_p)

  -- What follows the tests for the shell's own commands.
  unfoldable pub split_line : (fuel : ℕ) → (beg_p : List ℕ) → Option (List (List ℕ))
  unfolding count_words copy_words
  split_line fuel beg_p = copy_counted beg_p (count_words fuel beg_p 1)

  -- One round of the shell's loop, on the line that was read.
  unfoldable pub read_command : (fuel : ℕ) → (buf : List ℕ) → Option Command
  unfolding skip_blanks is_builtin split_line exec_words
  read_command fuel buf =
      let words = split_line fuel (skip_blanks buf) >>= (λ av. some (exec_words av)) in
      if is_builtin (skip_blanks buf) then some builtin else words
