-- ===== src/Tasks/Words.antt =====
-- Words and strings in the memory of a task, for kern/process.c.
use creeks_old.Base.{
  ℕ, zero, suc, ◌+◌, ◌*◌, ◌^◌, ◌≤◌, ◌<◌, ◌≡◌, ◌∙◌, ◌⊎◌, ap₂, inl, inr, List, [], ◌∷◌, length,
  get_or, update, update_ne, update_self, arith,
}
use creeks_old.Base.Endian.{u16_at, u32_at}
use creeks_old.Libc.{Bytes}
use creeks_old.Tasks.{put_u32, put_string}

pub put_u32_apart : (a w : ℕ) (m : Bytes) (b : ℕ) → (b < a) ⊎ (a + 4 ≤ b) → put_u32 a w m b ≡ m b
unfolding put_u32
put_u32_apart a w m b (inl below) = ground (arith, below)
put_u32_apart a w m b (inr above) = ground (arith, above)

pub u32_at-put_u32 : (a w : ℕ) (m : Bytes) → w < 2 ^ 32 → u32_at (put_u32 a w m) a ≡ w
unfolding put_u32 u32_at u16_at
u32_at-put_u32 a w m h = ground (arith, h)

pub u32_at-same :
    (f g : Bytes) (a : ℕ) → ((b : ℕ) → a ≤ b → b < a + 4 → f b ≡ g b) → u32_at f a ≡ u32_at g a
unfolding u32_at u16_at
u32_at-same f g a e =
    ap₂ (λ x y. x + 0x10000 * y)
      (ap₂ (λ x y. x + 0x100 * y) (e a (omega arith) (omega arith))
        (e (a + 1) (omega arith) (omega arith)))
      (ap₂ (λ x y. x + 0x100 * y) (e (a + 2) (omega arith) (omega arith))
        (e (a + 2 + 1) (omega arith) (omega arith)))

-- A string and the zero behind it stand at an address.
pub record Stands (m : Bytes) (a : ℕ) (s : List ℕ) : Type 0 where
  pub bytes : (i : ℕ) → i < length s → m (a + i) ≡ get_or s i 0
  pub ended : m (a + length s) ≡ 0

pub Stands-same :
    (f g : Bytes) (a : ℕ) (s : List ℕ)
    → ((b : ℕ) → a ≤ b → b < a + (length s + 1) → g b ≡ f b)
    → Stands f a s
    → Stands g a s
Stands-same f g a s e at = record {
  bytes = λ i h. e (a + i) (omega arith) (omega (arith, h)) ∙ at.bytes i h;
  ended = e (a + length s) (omega arith) (omega arith) ∙ at.ended;
}

pub put_string_apart :
    (s : List ℕ) (a : ℕ) (m : Bytes) (b : ℕ)
    → (b < a) ⊎ (a + (length s + 1) ≤ b)
    → put_string s a m b ≡ m b
unfolding put_string
put_string_apart [] a m b out =
    update_ne m a b 0 (λ e. elim out [ inl h ↦ omega (arith, h, e) | inr h ↦ omega (arith, h, e) ])
put_string_apart (c ∷ cs) a m b (inl below) =
    put_string_apart cs (a + 1) (update m a c) b (inl (omega (arith, below)))
    ∙ update_ne m a b c (λ e. omega (arith, below, e))
put_string_apart (c ∷ cs) a m b (inr above) =
    put_string_apart cs (a + 1) (update m a c) b (inr (omega (arith, above)))
    ∙ update_ne m a b c (λ e. omega (arith, above, e))

first_byte :
    (c : ℕ) (cs : List ℕ) (a : ℕ) (m : Bytes)
    → Stands (put_string cs (a + 1) (update m a c)) (a + 1) cs
    → (i : ℕ) → i < length (c ∷ cs)
    → put_string cs (a + 1) (update m a c) (a + i) ≡ get_or (c ∷ cs) i 0
first_byte c cs a m rest zero h =
    let e : a + 0 ≡ a = omega arith in
    rw e (put_string_apart cs (a + 1) (update m a c) a (inl (omega arith)) ∙ update_self m a c)
first_byte c cs a m rest (suc i) h =
    let e : a + suc i ≡ a + 1 + i = omega arith in rw e (rest.bytes i (omega (arith, h)))

pub put_string-Stands : (s : List ℕ) (a : ℕ) (m : Bytes) → Stands (put_string s a m) a s
unfolding put_string
put_string-Stands [] a m = record {
  bytes = λ i h. absurd (omega (arith, h));
  ended = let e : a + 0 ≡ a = omega arith in rw e (update_self m a 0);
}
put_string-Stands (c ∷ cs) a m =
    let rest = put_string-Stands cs (a + 1) (update m a c) in
    record {
      bytes = first_byte c cs a m rest;
      ended = let e : a + suc (length cs) ≡ a + 1 + length cs = omega arith in rw e rest.ended;
    }
