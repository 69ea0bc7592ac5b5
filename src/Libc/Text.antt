-- ===== src/Libc/Text.antt =====
-- The functions on strings that end at a zero byte: strlen, strcpy and strcmp of kern/lib.c, strncmp
-- of usr/libc/libc.c.
use creeks_old.Base.{
  ℕ, zero, suc, ◌+◌, ◌^◌, ◌≤◌, ◌<◌, ◌≡◌, ◌≢◌, ◌⊎◌, ◌∙◌, fun_ext, refl, ap₂, inl, inr, Option, some,
  List, [], ◌∷◌, length, take, ◌==◌, update, arith, Bool-cases, eq_of_==, ne_of_==,
}
use creeks_old.Libc.Memory.{block_copied}
use creeks_old.Libc.{
  Bytes, strlen, strlen_loop, strcpy, strcpy_loop, strcmp, strcmp_loop, strncmp, strncmp_loop,
  pred32,
}

-- The string `cs` stands at `s`: its bytes, none of them zero, and a zero byte.
abbrev pub IsString : Bytes → ℕ → List ℕ → Type 0
IsString m s [] = m s ≡ 0
IsString m s (c ∷ cs) = (m s ≡ c) × ((c ≢ 0) × IsString m (s + 1) cs)

strlen_loop_lem :
    (cs : List ℕ) (fuel i s : ℕ) (m : Bytes)
    → IsString m s cs
    → length cs < fuel
    → strlen_loop fuel i s m ≡ some (i + length cs)
unfolding strlen_loop
strlen_loop_lem cs zero i s m h f = absurd (omega arith)
strlen_loop_lem [] (suc fuel) i s m h f = ground arith
strlen_loop_lem (c ∷ cs) (suc fuel) i s m h f =
    ground (arith, strlen_loop_lem cs fuel (i + 1) (s + 1) m h.1.1 (omega arith))

-- strlen counts the bytes before the zero byte, in one round more than that.
pub strlen_lem :
    (cs : List ℕ) (fuel s : ℕ) (m : Bytes)
    → IsString m s cs
    → length cs < fuel
    → strlen fuel s m ≡ some (length cs)
unfolding strlen
strlen_lem cs fuel s m h f = ground (arith, strlen_loop_lem cs fuel 0 s m h f)

-- A string stays where its bytes do.
pub IsString-same :
    (cs : List ℕ) (s : ℕ) (m m' : Bytes)
    → IsString m s cs
    → ((a : ℕ) → s ≤ a → a ≤ s + length cs → m' a ≡ m a)
    → IsString m' s cs
IsString-same [] s m m' h same = same s (omega arith) (omega arith) ∙ h
IsString-same (c ∷ cs) s m m' (e, (n, h)) same = (
  same s (omega arith) (omega arith) ∙ e,
  (n, IsString-same cs (s + 1) m m' h (λ a l u. same a (omega arith) (omega arith))),
)

one_more :
    (n dst src : ℕ) (m : Bytes)
    → (dst ≤ src) ⊎ (src + suc n ≤ dst)
    → block_copied n (dst + 1) (src + 1) (update m dst (m src)) ≡ block_copied (suc n) dst src m
unfolding block_copied
one_more n dst src m apart = fun_ext (λ a. ground arith)

last_one : (dst src : ℕ) (m : Bytes) → update m dst (m src) ≡ block_copied 1 dst src m
unfolding block_copied
last_one dst src m = fun_ext (λ a. ground arith)

strcpy_loop_lem :
    (cs : List ℕ) (fuel i dst src : ℕ) (m : Bytes)
    → IsString m (src + i) cs
    → length cs < fuel
    → (dst ≤ src) ⊎ (src + i + suc (length cs) ≤ dst + i)
    → strcpy_loop fuel i dst src m
      ≡ some (i + length cs, block_copied (suc (length cs)) (dst + i) (src + i) m)
unfolding strcpy_loop
strcpy_loop_lem cs zero i dst src m h f apart = absurd (omega arith)
strcpy_loop_lem [] (suc fuel) i dst src m h f apart = ground (arith, last_one (dst + i) (src + i) m)
strcpy_loop_lem (c ∷ cs) (suc fuel) i dst src m (e, (n, h)) f apart =
    let from : src + (i + 1) ≡ src + i + 1 = omega arith in
    let to : dst + (i + 1) ≡ dst + i + 1 = omega arith in
    let copied = update m (dst + i) (m (src + i)) in
    let stays = IsString-same cs (src + i + 1) m copied h (λ a l u. ground arith) in
    let rest =
      strcpy_loop_lem cs fuel (i + 1) dst src copied (rw from stays) (omega arith) (ground arith) in
    let all = rw (to, from) at (rest) in
    ground (arith, all, one_more (suc (length cs)) (dst + i) (src + i) m (ground arith))

-- strcpy returns the length of the string and leaves memory as after copying the string with its
-- zero byte as one block, when the destination starts at or below the source, or behind its end.
pub strcpy-block_copied :
    (cs : List ℕ) (fuel dst src : ℕ) (m : Bytes)
    → IsString m src cs
    → length cs < fuel
    → (dst ≤ src) ⊎ (src + suc (length cs) ≤ dst)
    → strcpy fuel dst src m ≡ some (length cs, block_copied (suc (length cs)) dst src m)
unfolding strcpy
strcpy-block_copied cs fuel dst src m h f apart =
    let zero_src : src + 0 ≡ src = omega arith in
    let zero_dst : dst + 0 ≡ dst = omega arith in
    let loop = strcpy_loop_lem cs fuel 0 dst src m (rw zero_src h) f (ground arith) in
    let count : 0 + length cs ≡ length cs = omega arith in rw (zero_src, zero_dst, count) at (loop)

-- The answer of a comparison: 0 for equal strings, 1 for different ones.
abbrev pub Compared : Option ℕ → List ℕ → List ℕ → Type 0
Compared o xs ys = (o ≡ some 0) × (xs ≡ ys) ⊎ ((o ≡ some 1) × (xs ≢ ys))

strcmp_loop_lem :
    (xs ys : List ℕ) (fuel i dst src : ℕ) (m : Bytes)
    → IsString m (dst + i) xs
    → IsString m (src + i) ys
    → length xs < fuel
    → Compared (strcmp_loop fuel i dst src m) xs ys
unfolding strcmp_loop
strcmp_loop_lem xs ys zero i dst src m h k f = absurd (omega arith)
strcmp_loop_lem [] [] (suc fuel) i dst src m h k f = inl (ground arith, refl)
strcmp_loop_lem [] (y ∷ ys) (suc fuel) i dst src m h k f = inr (ground arith, λ e. ground arith)
strcmp_loop_lem (x ∷ xs) [] (suc fuel) i dst src m h k f = inr (ground arith, λ e. ground arith)
strcmp_loop_lem (x ∷ xs) (y ∷ ys) (suc fuel) i dst src m h k f = elim (Bool-cases (x == y)) [
  | inl same ↦
      let e : x ≡ y = eq_of_== x y same in
      elim (strcmp_loop_lem xs ys fuel (i + 1) dst src m (ground (arith, h)) (ground (arith, k))
        (omega arith)) [
          | inl (o, l) ↦ inl (ground (arith, h, k), ap₂ (λ a b. a ∷ b) e l)
          | inr (o, l) ↦ inr (ground (arith, h, k), λ q. ground (arith, l))
        ]
  | inr apart ↦ inr (ground (arith, h, k), λ q. ground (arith, ne_of_== x y apart))
]

-- strcmp answers 0 exactly when the two strings are equal and 1 exactly when they differ, in at most
-- one round more than the first string is long.
pub strcmp-Compared :
    (xs ys : List ℕ) (fuel dst src : ℕ) (m : Bytes)
    → IsString m dst xs
    → IsString m src ys
    → length xs < fuel
    → Compared (strcmp fuel dst src m) xs ys
unfolding strcmp
strcmp-Compared xs ys fuel dst src m h k f =
    let d : dst + 0 ≡ dst = omega arith in
    let s : src + 0 ≡ src = omega arith in
    strcmp_loop_lem xs ys fuel 0 dst src m (rw d h) (rw s k) f

pred32-suc : (n : ℕ) → suc n < 2 ^ 32 → pred32 (suc n) ≡ n
pred32-suc n h = omega arith

strncmp_loop_lem :
    (xs ys : List ℕ) (fuel n i dst src : ℕ) (m : Bytes)
    → suc n < 2 ^ 32
    → IsString m (dst + i) xs
    → IsString m (src + i) ys
    → length xs < fuel
    → Compared (strncmp_loop fuel (suc n) i dst src m) (take (suc n) xs) (take (suc n) ys)
unfolding strncmp_loop
strncmp_loop_lem xs ys zero n i dst src m w h k f = absurd (omega arith)
strncmp_loop_lem [] [] (suc fuel) n i dst src m w h k f = inl (ground arith, refl)
strncmp_loop_lem [] (y ∷ ys) (suc fuel) n i dst src m w h k f =
    inr (ground arith, λ e. ground arith)
strncmp_loop_lem (x ∷ xs) [] (suc fuel) n i dst src m w h k f =
    inr (ground arith, λ e. ground arith)
strncmp_loop_lem (x ∷ xs) (y ∷ ys) (suc fuel) zero i dst src m w h k f =
    elim (Bool-cases (x == y)) [
      | inl same ↦ inl (ground (arith, h, k), ground (arith, eq_of_== x y same))
      | inr apart ↦ inr (ground (arith, h, k), λ q. ground (arith, ne_of_== x y apart))
    ]
strncmp_loop_lem (x ∷ xs) (y ∷ ys) (suc fuel) (suc n) i dst src m w h k f =
    let less : pred32 (suc (suc n)) ≡ suc n = pred32-suc (suc n) w in
    elim (Bool-cases (x == y)) [
      | inl same ↦
          let e : x ≡ y = eq_of_== x y same in
          elim (strncmp_loop_lem xs ys fuel n (i + 1) dst src m (omega arith) (ground (arith, h))
            (ground (arith, k)) (omega arith)) [
              | inl (o, l) ↦ inl (rw less (ground (arith, h, k)), ap₂ (λ a b. a ∷ b) e l)
              | inr (o, l) ↦ inr (rw less (ground (arith, h, k)), λ q. ground (arith, l))
            ]
      | inr apart ↦ inr (ground (arith, h, k), λ q. ground (arith, ne_of_== x y apart))
    ]

-- For a length from 1 to 2^32 - 1, strncmp answers 0 exactly when the two strings agree within that
-- many bytes, and 1 exactly when they do not.
pub strncmp-Compared :
    (xs ys : List ℕ) (fuel n dst src : ℕ) (m : Bytes)
    → suc n < 2 ^ 32
    → IsString m dst xs
    → IsString m src ys
    → length xs < fuel
    → Compared (strncmp fuel (suc n) dst src m) (take (suc n) xs) (take (suc n) ys)
unfolding strncmp
strncmp-Compared xs ys fuel n dst src m w h k f =
    let d : dst + 0 ≡ dst = omega arith in
    let s : src + 0 ≡ src = omega arith in
    strncmp_loop_lem xs ys fuel n 0 dst src m w (rw d h) (rw s k) f
