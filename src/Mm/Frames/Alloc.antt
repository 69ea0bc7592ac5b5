-- ===== src/Mm/Frames/Alloc.antt =====
-- `get_page_frame` is a first-fit allocator over the frames of the bitmap.
use creeks_old.Base.{
  ℕ, zero, suc, ◌+◌, ◌-◌, ◌*◌, ◌/◌, ◌%◌, ◌≤◌, ◌<◌, ◌≡◌, refl, inl, inr, Bool, true, false, Option,
  none, some, arith, ◌==◌, ◌!=◌, ltb, ltb→lt, ltb→le, if◌then◌else◌, ◌∙◌, Bool-cases,
}
use creeks_old.Base.Bits.{bit_at, full_bits}
use creeks_old.Mm.Frames.Marks.{is_used-set, set_page_frame_used-HoldsBytes}
use creeks_old.Mm.Frames.{
  page_size, ram_max_page, minus_one, Bitmap, set_page_frame_used, find_bit, find_page,
  get_page_frame, is_used, HoldsBytes,
}

-- The first index from `k` on, of `n`, at which `p` is false.
abbrev FirstFree : (ℕ → Bool) → ℕ → ℕ → Option ℕ → Type 0
FirstFree p k n none = (j : ℕ) → k ≤ j → j < k + n → p j ≡ true
FirstFree p k n (some i) =
    (k ≤ i) × (i < k + n) × (p i ≡ false) × ((j : ℕ) → k ≤ j → j < i → p j ≡ true)

module _ (p : ℕ → Bool) where
  used_first :
      (k n : ℕ) (o : Option ℕ) → p k ≡ true → FirstFree p (k + 1) n o → FirstFree p k (suc n) o
  used_first k n none h f = λ j lo hi. elim (Bool-cases (j == k)) [
    | inl e ↦ ground (arith, h)
    | inr e ↦ f j (ground arith) (omega arith)
  ]
  used_first k n (some i) h f = (
    omega arith,
    omega arith,
    f.2,
    λ j lo hi. elim (Bool-cases (j == k)) [
      | inl e ↦ ground (arith, h)
      | inr e ↦ f.3 j (ground arith) (omega arith)
    ],
  )

  free_first : (k n : ℕ) → p k ≡ false → FirstFree p k (suc n) (some k)
  free_first k n h = (omega arith, omega arith, h, λ j lo hi. absurd (omega arith))

  join :
      (k a b : ℕ) (o : Option ℕ)
      → FirstFree p k a none
      → FirstFree p (k + a) b o
      → FirstFree p k (a + b) o
  join k a b none f g = λ j lo hi. elim (Bool-cases (ltb j (k + a))) [
    | inl e ↦ f j lo (ltb→lt _ _ e)
    | inr e ↦ g j (ltb→le _ _ e) (omega arith)
  ]
  join k a b (some i) f g = (
    omega arith,
    omega arith,
    g.2,
    λ j lo hi. elim (Bool-cases (ltb j (k + a))) [
      | inl e ↦ f j lo (ltb→lt _ _ e)
      | inr e ↦ g.3 j (ltb→le _ _ e) hi
    ],
  )

  extend : (k a b i : ℕ) → FirstFree p k a (some i) → FirstFree p k (a + b) (some i)
  extend k a b i f = (f.0, omega arith, f.2, f.3)

find_bit_lem : (n k b : ℕ) → FirstFree (bit_at b) k n (find_bit n k b)
unfolding find_bit
find_bit_lem zero k b = λ j h l. absurd (omega arith)
find_bit_lem (suc n) k b = elim (Bool-cases (bit_at b k)) [
  | inl e ↦ rw e (used_first (bit_at b) k n (find_bit n (k + 1) b) e (find_bit_lem n (k + 1) b))
  | inr e ↦ rw e (free_first (bit_at b) k n e)
]

-- The bits of a byte are the marks of eight pages.
is_used-byte :
    (m : Bitmap) (byte j : ℕ)
    → 8 * byte ≤ j
    → j < 8 * byte + 8
    → is_used m j ≡ bit_at (m byte) (j - 8 * byte)
is_used-byte m byte j lo hi =
    let d : j / 8 ≡ byte = omega arith in
    let r : j % 8 ≡ j - 8 * byte = omega arith in rw (d, r) refl

byte_full :
    (m : Bitmap) (byte : ℕ)
    → ((k : ℕ) → k < 8 → bit_at (m byte) k ≡ true)
    → FirstFree (is_used m) (8 * byte) 8 none
byte_full m byte all j lo hi = rw (is_used-byte m byte j lo hi) (all _ (omega arith))

byte_some :
    (m : Bitmap) (byte i : ℕ)
    → FirstFree (bit_at (m byte)) 0 8 (some i)
    → FirstFree (is_used m) (8 * byte) 8 (some (8 * byte + i))
byte_some m byte i f =
    let e : 8 * byte + i - 8 * byte ≡ i = omega arith in
    (
      omega arith,
      omega arith,
      is_used-byte m byte (8 * byte + i) (omega arith) (omega arith) ∙ rw e f.2,
      λ j lo hi.
          is_used-byte m byte j lo (omega arith) ∙ f.3 (j - 8 * byte) (omega arith) (omega arith),
    )

-- The rounds that are left, after the byte under the loop.
abbrev after_byte : Option ℕ → ℕ → Option ℕ → Option ℕ
after_byte (some bit) byte rest = some (8 * byte + bit)
after_byte none byte rest = rest

after_byte_lem :
    (m : Bitmap) (byte n : ℕ) (o rest : Option ℕ)
    → FirstFree (bit_at (m byte)) 0 8 o
    → FirstFree (is_used m) (8 * byte + 8) (8 * n) rest
    → FirstFree (is_used m) (8 * byte) (8 + 8 * n) (after_byte o byte rest)
after_byte_lem m byte n none rest f g =
    join (is_used m) (8 * byte) 8 (8 * n) rest
      (byte_full m byte (λ k h. f k (omega arith) (omega arith))) g
after_byte_lem m byte n (some i) rest f g =
    extend (is_used m) (8 * byte) 8 (8 * n) (8 * byte + i) (byte_some m byte i f)

-- A byte that is not 0xFF is scanned, one that is has no free page.
byte_step :
    (m : Bitmap) (byte n : ℕ) (rest : Option ℕ)
    → FirstFree (is_used m) (8 * byte + 8) (8 * n) rest
    → FirstFree (is_used m) (8 * byte) (8 + 8 * n) (
        if m byte != 0xFF
        then elim (find_bit 8 0 (m byte)) [ some bit ↦ some (8 * byte + bit) | none ↦ rest ]
        else rest)
byte_step m byte n rest g = elim (Bool-cases (m byte != 0xFF)) [
  | inl c ↦ rw c (scan (find_bit 8 0 (m byte)) (find_bit_lem 8 0 (m byte)))
  | inr c ↦ rw c (
      join (is_used m) (8 * byte) 8 (8 * n) rest
        (byte_full m byte (λ k h. full_bits 8 (m byte) k (ground arith) h)) g)
]
  where
    scan :
        (o : Option ℕ)
        → FirstFree (bit_at (m byte)) 0 8 o
        → FirstFree
            (is_used m)
            (8 * byte)
            (8 + 8 * n)
            (elim o [ some bit ↦ some (8 * byte + bit) | none ↦ rest ])
    scan none f = after_byte_lem m byte n none rest f g
    scan (some i) f = after_byte_lem m byte n (some i) rest f g

find_page_lem :
    (n byte : ℕ) (m : Bitmap) → FirstFree (is_used m) (8 * byte) (8 * n) (find_page n byte m)
unfolding find_page
find_page_lem zero byte m = λ j lo hi. absurd (omega arith)
find_page_lem (suc n) byte m =
    let e : 8 * suc n ≡ 8 + 8 * n = omega arith in
    let f : 8 * (byte + 1) ≡ 8 * byte + 8 = omega arith in
    rw e (byte_step m byte n (find_page n (byte + 1) m) (rw f at (find_page_lem n (byte + 1) m)))

-- What `get_page_frame` does, for either outcome: with a free frame it returns the address of the
-- lowest one and marks that frame and no other; with none it returns -1 and changes nothing.
pub data Allocated (m : Bitmap) : ℕ × Bitmap → Type 0 where
  frame :
      (page : ℕ) {m' : Bitmap}
      → page < ram_max_page
      → is_used m page ≡ false
      → ((q : ℕ) → q < page → is_used m q ≡ true)
      → ((q : ℕ) → is_used m' q ≡ (if q == page then true else is_used m q))
      → HoldsBytes m'
      → Allocated m (page * page_size, m')
  exhausted : ((q : ℕ) → q < ram_max_page → is_used m q ≡ true) → Allocated m (minus_one, m)

-- On a bitmap of bytes `get_page_frame` returns the address of the lowest free frame, below the
-- limit, and then exactly that frame is marked besides the ones before, in bytes again; or every
-- frame below the limit is used, the result is -1 and the bitmap is unchanged.
pub get_page_frame-Allocated : (m : Bitmap) → HoldsBytes m → Allocated m (get_page_frame m)
unfolding get_page_frame
get_page_frame-Allocated m h =
    outcome (find_page (ram_max_page / 8) 0 m) (find_page_lem (ram_max_page / 8) 0 m)
  where
    outcome :
        (o : Option ℕ)
        → FirstFree (is_used m) 0 ram_max_page o
        → Allocated m (elim o [
          | some page ↦ (page * page_size, set_page_frame_used page m)
          | none ↦ (minus_one, m)
        ])
    outcome none f = exhausted (λ q hq. f q (omega arith) hq)
    outcome (some page) f =
        frame page f.1 f.2 (λ q hq. f.3 q (omega arith) hq) (λ q. is_used-set m page q)
          (set_page_frame_used-HoldsBytes m page h)
