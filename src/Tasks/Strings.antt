-- ===== src/Tasks/Strings.antt =====
-- The strings that `load_task` of kern/process.c copies to the user's stack.
use creeks_old.Base.{
  ℕ, zero, suc, ◌+◌, ◌-◌, ◌≤◌, ◌<◌, ◌≡◌, ◌∙◌, ◌⊎◌, refl, ap, inl, inr, List, [], ◌∷◌, length,
  get_or, arith,
}
use creeks_old.Libc.{Bytes}
use creeks_old.Tasks.{put_string, put_strings}
use creeks_old.Tasks.Words.{Stands, Stands-same, put_string_apart, put_string-Stands}

-- The bytes of strings with the zeros behind them.
unfoldable pub room : List (List ℕ) → ℕ
room [] = 0
room (s ∷ ss) = length s + 1 + room ss

-- A string stands at a pointer between two addresses.
pub record StandsIn (m : Bytes) (low high p : ℕ) (s : List ℕ) : Type 0 where
  pub stand : Stands m p s
  pub above : low ≤ p
  pub below : p + (length s + 1) ≤ high

-- Each of the strings stands where its pointer says.
pub record AllStand (m : Bytes) (low high : ℕ) (ps : List ℕ) (ss : List (List ℕ)) : Type 0 where
  pub count : length ps ≡ length ss
  pub each : (i : ℕ) → i < length ss → StandsIn m low high (get_or ps i 0) (get_or ss i [])

each_of :
    (P : ℕ → List ℕ → Type 0) (p : ℕ) (s : List ℕ) (ps : List ℕ) (ss : List (List ℕ))
    → P p s
    → ((i : ℕ) → i < length ss → P (get_or ps i 0) (get_or ss i []))
    → (i : ℕ) → i < length (s ∷ ss)
    → P (get_or (p ∷ ps) i 0) (get_or (s ∷ ss) i [])
each_of P p s ps ss first rest zero h = first
each_of P p s ps ss first rest (suc i) h = rest i (omega (arith, h))

pub put_strings-stackp :
    (ss : List (List ℕ)) (stackp : ℕ) (m : Bytes)
    → (put_strings ss stackp m).stackp ≡ stackp - room ss
unfolding put_strings room
put_strings-stackp [] stackp m = omega arith
put_strings-stackp (s ∷ ss) stackp m =
    put_strings-stackp ss (stackp - (length s + 1)) (put_string s (stackp - (length s + 1)) m)
    ∙ omega arith

put_strings_apart :
    (ss : List (List ℕ)) (stackp : ℕ) (m : Bytes) (b : ℕ)
    → room ss ≤ stackp
    → (b < stackp - room ss) ⊎ (stackp ≤ b)
    → (put_strings ss stackp m).memory b ≡ m b
unfolding put_strings room
put_strings_apart [] stackp m b h out = refl
put_strings_apart (s ∷ ss) stackp m b h out =
    let at = stackp - (length s + 1) in
    elim out [
      | inl low ↦
          put_strings_apart ss at (put_string s at m) b (omega (arith, h))
            (inl (omega (arith, h, low)))
          ∙ put_string_apart s at m b (inl (omega (arith, h, low)))
      | inr high ↦
          put_strings_apart ss at (put_string s at m) b (omega (arith, h))
            (inr (omega (arith, h, high)))
          ∙ put_string_apart s at m b (inr (omega (arith, h, high)))
    ]

pub put_strings-AllStand :
    (ss : List (List ℕ)) (stackp : ℕ) (m : Bytes)
    → room ss ≤ stackp
    → let s = put_strings ss stackp m in AllStand s.memory (stackp - room ss) stackp s.uparam ss
unfolding put_strings room
put_strings-AllStand [] stackp m h = record {
  count = refl;
  each = λ i l. absurd (omega (arith, l));
}
put_strings-AllStand (s ∷ ss) stackp m h =
    let at = stackp - (length s + 1) in
    let m' = put_string s at m in
    let rest = put_strings-AllStand ss at m' (omega (arith, h)) in
    let kept : (b : ℕ) → at ≤ b → b < at + (length s + 1) → (put_strings ss at m').memory b ≡ m' b =
      λ b low high. put_strings_apart ss at m' b (omega (arith, h)) (inr low) in
    let first = Stands-same m' (put_strings ss at m').memory at s kept (put_string-Stands s at m) in
    record {
      count = ap suc rest.count;
      each =
          each_of (StandsIn (put_strings ss at m').memory (stackp - room (s ∷ ss)) stackp) at s
            (put_strings ss at m').uparam ss
            (record { stand = first; above = omega (arith, h); below = omega (arith, h) })
            (λ i l.
              let r = rest.each i l in
              record {
                stand = r.stand;
                above = omega (arith, h, r.above);
                below = omega (arith, h, r.below);
              });
    }
