-- ===== src/Libc/Tests.antt =====
-- Runs of the C library, and its theorems at concrete values.
use creeks_old.Base.{ℕ, ◌≡◌, ◌<◌, refl, some, List, [], ◌∷◌, update, arith}
use creeks_old.Base.Options.{◌>>=◌}
use creeks_old.Libc.{Bytes, strlen, strlen_loop, itoa, digits_loop, reverse_loop, digit_char, atoi}
use creeks_old.Libc.Text.{IsString, strlen_lem}
use creeks_old.Libc.Atoi.{atoi-itoa}

-- "ls" at 100 and "lx" at 200
abbrev words : Bytes
words = update (update (update (update (λ a. 0) 100 108) 101 115) 200 108) 201 120

abbrev ls : List ℕ
ls = 108 ∷ 115 ∷ []

abbrev lx : List ℕ
lx = 108 ∷ 120 ∷ []

ls_stands : IsString words 100 ls
ls_stands = (refl, (λ e. omega (arith, e), (refl, (λ e. omega (arith, e), refl))))

lx_stands : IsString words 200 lx
lx_stands = (refl, (λ e. omega (arith, e), (refl, (λ e. omega (arith, e), refl))))

length_of_ls : strlen 9 100 words ≡ some 2
unfolding strlen strlen_loop
length_of_ls = refl

-- 0x2A in base 16 at 50
hex_42 :
    (itoa 43 50 42 16 words >>= (λ m. some (m 50 ∷ m 51 ∷ m 52 ∷ []))) ≡ some (50 ∷ 97 ∷ 0 ∷ [])
unfolding itoa digits_loop reverse_loop digit_char
hex_42 = refl

strlen_lem_example : strlen 3 100 words ≡ some 2
strlen_lem_example = strlen_lem ls 3 100 words ls_stands (omega arith)

atoi-itoa_example :
    (k : ℕ) × ((m' : Bytes) × ((itoa 137 50 136 10 words ≡ some m')
        × ((rounds : ℕ) → k < rounds → atoi rounds 50 m' ≡ some 136)))
atoi-itoa_example = atoi-itoa 137 50 136 words (omega arith) (omega arith)
