-- ===== src/Shell/Words.antt =====
-- The arguments that the shell, usr/shell.c, gives to a program: the words of the line.
use creeks_old.Base.{
  ℕ, ◌≡◌, ◌∙◌, refl, sym, ap, inl, inr, Bool-cases, true, false, List, [], ◌∷◌, ◌==◌, ◌||◌,
  if◌then◌else◌, arith,
}
use creeks_old.Shell.{is_blank, skip_blanks, skip_word}

-- The line up to its newline cut at every blank: the word in front of the first blank, and the others.
unfoldable pub cut : List ℕ → List ℕ × List (List ℕ)
cut [] = ([], [])
cut (c ∷ cs) =
    let rest = cut cs in
    if c == 10
    then ([], [])
    else (if is_blank c then ([], rest.0 ∷ rest.1) else (c ∷ rest.0, rest.1))

unfoldable pub not_empty : List (List ℕ) → List (List ℕ)
not_empty [] = []
not_empty ([] ∷ ws) = not_empty ws
not_empty ((c ∷ w) ∷ ws) = (c ∷ w) ∷ not_empty ws

-- The words of a line.
unfoldable pub words : List ℕ → List (List ℕ)
unfolding cut not_empty
words line = let (first, others) = cut line in not_empty (first ∷ others)

-- The word that a rest of the line begins with.
unfoldable pub head_word : List ℕ → List ℕ
head_word [] = []
head_word (c ∷ cs) = let rest = head_word cs in if c == 10 || is_blank c then [] else c ∷ rest

abbrev pub BeginsWord : List ℕ → Type 0
BeginsWord [] = Unit
BeginsWord (c ∷ cs) = is_blank c ≡ false

blank_not_newline : (c : ℕ) → is_blank c ≡ true → (c == 10) ≡ false
blank_not_newline c e = ground (arith, e)

pub skip_blanks-BeginsWord : (cs : List ℕ) → BeginsWord (skip_blanks cs)
unfolding skip_blanks
skip_blanks-BeginsWord [] = tt
skip_blanks-BeginsWord (c ∷ cs) = elim (Bool-cases (is_blank c)) [
  | inl blank ↦ rw blank (skip_blanks-BeginsWord cs)
  | inr other ↦ rw other other
]

pub words-skip_blanks : (cs : List ℕ) → words (skip_blanks cs) ≡ words cs
unfolding words cut not_empty skip_blanks
words-skip_blanks [] = refl
words-skip_blanks (c ∷ cs) = elim (Bool-cases (is_blank c)) [
  | inl blank ↦
      let skipped : skip_blanks (c ∷ cs) ≡ skip_blanks cs = rw blank refl in
      let behind : words cs ≡ words (c ∷ cs) = rw (blank_not_newline c blank, blank) refl in
      ap words skipped ∙ (words-skip_blanks cs ∙ behind)
  | inr other ↦ let same : skip_blanks (c ∷ cs) ≡ c ∷ cs = rw other refl in ap words same
]

pub cut_head : (cs : List ℕ) → (cut cs).0 ≡ head_word cs
unfolding cut head_word
cut_head [] = refl
cut_head (c ∷ cs) = elim (Bool-cases (c == 10)) [
  | inl newline ↦ rw newline refl
  | inr more ↦ rw more (elim (Bool-cases (is_blank c)) [
    | inl blank ↦ rw blank refl
    | inr other ↦ rw other (ap (λ w. c ∷ w) (cut_head cs))
  ])
]

stops :
    (c : ℕ) (cs : List ℕ)
    → (c == 10 || is_blank c) ≡ true
    → not_empty ((cut (c ∷ cs)).1) ≡ words (c ∷ cs)
unfolding words cut not_empty
stops c cs stop = elim (Bool-cases (c == 10)) [
  | inl newline ↦ rw newline refl
  | inr more ↦ let blank : is_blank c ≡ true = rw more at (stop) in rw (more, blank) refl
]

pub cut_others : (cs : List ℕ) → not_empty ((cut cs).1) ≡ words (skip_word cs)
unfolding words cut not_empty skip_word
cut_others [] = refl
cut_others (c ∷ cs) = elim (Bool-cases (c == 10 || is_blank c)) [
  | inl stop ↦
      let same : skip_word (c ∷ cs) ≡ c ∷ cs = rw stop refl in
      let all : not_empty ((cut (c ∷ cs)).1) ≡ words (c ∷ cs) = stops c cs stop in
      all ∙ sym (ap words same)
  | inr other ↦
      let apart : (c == 10) ≡ false = ground (arith, other) in
      let solid : is_blank c ≡ false = ground (arith, other) in rw (apart, solid) (cut_others cs)
]
