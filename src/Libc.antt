-- ===== src/Libc.antt =====
-- The C library: kern/lib.c, which the kernel uses, and what usr/libc/libc.c adds or does otherwise.
-- Memory is a function from addresses to bytes; a loop that looks for the end of a string runs on
-- fuel, and `none` would be a run that goes on past it.
pub mod Memory
pub mod Text
pub mod Numerals
pub mod Digits
pub mod Atoi
mod Tests
use creeks_old.Base.{
  ℕ, zero, suc, ◌+◌, ◌-◌, ◌*◌, ◌/◌, ◌%◌, ◌^◌, Bool, true, false, Option, none, some, ◌==◌, ltb, leb,
  ◌&&◌, ◌||◌, if◌then◌else◌, update,
}
use creeks_old.Base.Options.{◌>>=◌}

abbrev pub Bytes : Type 0
Bytes = ℕ → ℕ

-- `while (n--) *dst++ = *src++;`
unfoldable pub memcpy : (n dst src : ℕ) → Bytes → Bytes
memcpy zero dst src m = m
memcpy (suc n) dst src m = memcpy n (suc dst) (suc src) (update m dst (m src))

unfoldable pub strlen_loop : (fuel i s : ℕ) → Bytes → Option ℕ
strlen_loop zero i s m = none
strlen_loop (suc fuel) i s m =
    let rest = strlen_loop fuel (i + 1) (s + 1) m in if m s == 0 then some i else rest

unfoldable pub strlen : (fuel s : ℕ) → Bytes → Option ℕ
unfolding strlen_loop
strlen fuel s m = strlen_loop fuel 0 s m

-- `while ((dst[i] = src[i])) ++i;` from `i` on.
unfoldable pub strcpy_loop : (fuel i dst src : ℕ) → Bytes → Option (ℕ × Bytes)
strcpy_loop zero i dst src m = none
strcpy_loop (suc fuel) i dst src m =
    let copied = update m (dst + i) (m (src + i)) in
    let rest = strcpy_loop fuel (i + 1) dst src copied in
    if m (src + i) == 0 then some (i, copied) else rest

-- The kernel's `strcpy` returns the length of the string.
unfoldable pub strcpy : (fuel dst src : ℕ) → Bytes → Option (ℕ × Bytes)
unfolding strcpy_loop
strcpy fuel dst src m = strcpy_loop fuel 0 dst src m

-- The loops of `strcmp` from `i` on.
unfoldable pub strcmp_loop : (fuel i dst src : ℕ) → Bytes → Option ℕ
strcmp_loop zero i dst src m = none
strcmp_loop (suc fuel) i dst src m =
    let rest = strcmp_loop fuel (i + 1) dst src m in
    if m (dst + i) == m (src + i) then (if m (src + i) == 0 then some 0 else rest) else some 1

unfoldable pub strcmp : (fuel dst src : ℕ) → Bytes → Option ℕ
unfolding strcmp_loop
strcmp fuel dst src m = strcmp_loop fuel 0 dst src m

-- `--n` on a 32-bit word
abbrev pub pred32 : ℕ → ℕ
pred32 n = (n + (2 ^ 32 - 1)) % 2 ^ 32

-- The user library's `strncmp`.
unfoldable pub strncmp_loop : (fuel n i dst src : ℕ) → Bytes → Option ℕ
strncmp_loop zero n i dst src m = none
strncmp_loop (suc fuel) n i dst src m =
    let rest = strncmp_loop fuel (pred32 n) (i + 1) dst src m in
    if m (dst + i) == m (src + i)
    then (if pred32 n == 0 || m (src + i) == 0 then some 0 else rest)
    else some 1

unfoldable pub strncmp : (fuel n dst src : ℕ) → Bytes → Option ℕ
unfolding strncmp_loop
strncmp fuel n dst src m = strncmp_loop fuel n 0 dst src m

-- `(tmp < 10) ? (tmp + '0') : (tmp + 'a' - 10)`
unfoldable pub digit_char : ℕ → ℕ
digit_char tmp = if ltb tmp 10 then tmp + 48 else tmp + 97 - 10

-- The first loop of `itoa`, lowest digit first, with the number of digits.
unfoldable pub digits_loop : (base fuel n i buf : ℕ) → Bytes → Option (ℕ × Bytes)
digits_loop base zero n i buf m = none
digits_loop base (suc fuel) n i buf m =
    let written = update m (buf + i) (digit_char (n % base)) in
    let rest = digits_loop base fuel (n / base) (i + 1) buf written in
    if n / base == 0 then some (i + 1, written) else rest

-- The second loop of `itoa`: the bytes from `j` to `i` change places.
unfoldable pub reverse_loop : (fuel j i buf : ℕ) → Bytes → Bytes
reverse_loop zero j i buf m = m
reverse_loop (suc fuel) j i buf m =
    let swapped = update (update m (buf + j) (m (buf + i))) (buf + i) (m (buf + j)) in
    let rest = reverse_loop fuel (j + 1) (i - 1) buf swapped in if ltb j i then rest else m

unfoldable pub itoa : (fuel buf n base : ℕ) → Bytes → Option Bytes
unfolding digits_loop reverse_loop
itoa fuel buf n base m = do
  (i, digits) ← digits_loop base fuel n 0 buf m
  some (reverse_loop i 0 (i - 1) buf (update digits (buf + i) 0))

-- The loop of `atoi`, on 32-bit words.
unfoldable pub atoi_loop : (fuel c n : ℕ) → Bytes → Option ℕ
atoi_loop zero c n m = none
atoi_loop (suc fuel) c n m =
    let rest = atoi_loop fuel (c + 1) ((n * 10 + m c - 48) % 2 ^ 32) m in
    if leb 48 (m c) && leb (m c) 57 then rest else some n

-- `atoi` returns a word, a negative number as its two's complement.
unfoldable pub atoi : (fuel str : ℕ) → Bytes → Option ℕ
unfolding atoi_loop
atoi fuel str m =
    let plain = atoi_loop fuel str 0 m in
    let behind = atoi_loop fuel (str + 1) 0 m >>= (λ n. some ((2 ^ 32 - n) % 2 ^ 32)) in
    if m str == 45 then behind else plain
