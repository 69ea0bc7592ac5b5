-- ===== src/Linked/Order.antt =====
-- The order of a list of kern/list.h, whatever the addresses of its members.
use creeks_old.Base.{
  ℕ, ◌≡◌, ◌≢◌, ◌∙◌, sym, ap, subst, List, [], ◌∷◌, All, Bool, true, false, ==_of_ne, arith, update,
  update_self, update_ne,
}
use creeks_old.Linked.{Heads, set_next, set_prev, init_list_head, list_add, list_empty}

-- From `a` the members `xs` lead to `b`, forwards and backwards.
abbrev pub Chain : Heads → ℕ → List ℕ → ℕ → Type 0
Chain s a [] b = (s.next a ≡ b) × (s.prev b ≡ a)
Chain s a (x ∷ xs) b = ((s.next a ≡ x) × (s.prev x ≡ a)) × Chain s x xs b

abbrev pub Apart : ℕ → List ℕ → Type 0
Apart x xs = All (λ y. y ≢ x) xs

abbrev pub Distinct : List ℕ → Type 0
Distinct [] = Unit
Distinct (x ∷ xs) = Apart x xs × Distinct xs

abbrev pub is_nil : List ℕ → Bool
is_nil [] = true
is_nil (x ∷ xs) = false

Chain-same :
    (s s' : Heads) (a : ℕ) (xs : List ℕ) (b : ℕ)
    → (s'.next a ≡ s.next a)
    → All (λ y. (s'.next y ≡ s.next y) × (s'.prev y ≡ s.prev y)) xs
    → (s'.prev b ≡ s.prev b)
    → Chain s a xs b
    → Chain s' a xs b
Chain-same s s' a [] b first all last (f, g) = (first ∙ f, last ∙ g)
Chain-same s s' a (x ∷ xs) b first ((n, p), all) last ((f, g), rest) =
    ((first ∙ f, p ∙ g), Chain-same s s' x xs b n all last rest)

-- Once initialised, a list has no members.
pub init_list_head-Chain : (head : ℕ) (s : Heads) → Chain (init_list_head head s) head [] head
unfolding init_list_head set_next set_prev
init_list_head-Chain head s = (update_self s.next head head, update_self s.prev head head)

both :
    (new head : ℕ) (s : Heads) (ys : List ℕ) (x : ℕ)
    → Apart new ys
    → Apart head ys
    → Apart x ys
    → All
        (λ y.
          (update (update s.next new x) head new y ≡ s.next y)
          × (update (update s.prev new head) x new y ≡ s.prev y))
        ys
both new head s [] x n h f = tt
both new head s (y ∷ ys) x (n, ns) (h, hs) (f, fs) = (
  (
    update_ne (update s.next new x) head y new h ∙ update_ne s.next new y x n,
    update_ne (update s.prev new head) x y new f ∙ update_ne s.prev new y head n,
  ),
  both new head s ys x ns hs fs,
)

-- The list_head `x` that was the first comes behind the new one.
abbrev added : (new head x : ℕ) → Heads → Heads
added new head x s = record {
  next = update (update s.next new x) head new;
  prev = update (update s.prev new head) x new;
}

list_add-added :
    (new head x : ℕ) (s : Heads)
    → new ≢ head
    → s.next head ≡ x
    → list_add new head s ≡ added new head x s
unfolding list_add set_next set_prev
list_add-added new head x s apart first =
    let ahead = update s.next new (s.next head) in
    let still : ahead head ≡ s.next head =
      update_ne s.next new head (s.next head) (λ e. apart (sym e)) in
    ap (λ y. record { next = update ahead head new; prev = update (update s.prev new head) y new })
      still
    ∙ ap (λ y. added new head y s) first

-- Adding a list_head that is not of the list puts it in front of the members.
pub list_add-Chain :
    (new head : ℕ) (xs : List ℕ) (s : Heads)
    → new ≢ head
    → Apart new xs
    → Apart head xs
    → Distinct xs
    → Chain s head xs head
    → Chain (list_add new head s) head (new ∷ xs) head
list_add-Chain new head [] s apart n h d (f, g) =
    subst (λ s'. Chain s' head (new ∷ []) head) (sym (list_add-added new head head s apart f))
      (
        (
          update_self (update s.next new head) head new,
          update_ne (update s.prev new head) head new new apart ∙ update_self s.prev new head,
        ),
        (
          update_ne (update s.next new head) head new new apart ∙ update_self s.next new head,
          update_self (update s.prev new head) head new,
        ),
      )
list_add-Chain new head (x ∷ xs) s apart (n, ns) (h, hs) (d, ds) ((f, g), rest) =
    let back : head ≢ new = λ e. apart (sym e) in
    let s' : Heads = added new head x s in
    let sames = both new head s xs x ns hs d in
    subst (λ s'. Chain s' head (new ∷ x ∷ xs) head) (sym (list_add-added new head x s apart f))
      (
        (
          update_self (update s.next new x) head new,
          update_ne (update s.prev new head) x new new (λ e. n (sym e))
              ∙ update_self s.prev new head,
        ),
        (
          (
            update_ne (update s.next new x) head new new apart ∙ update_self s.next new x,
            update_self (update s.prev new head) x new,
          ),
          Chain-same s s' x xs head
              (update_ne (update s.next new x) head x new h ∙ update_ne s.next new x x n) sames
              (update_ne (update s.prev new head) x head new (λ e. h (sym e))
                ∙ update_ne s.prev new head head back)
              rest,
        ),
      )

-- A list without members is empty, and one with members is not.
pub list_empty-Chain :
    (head : ℕ) (xs : List ℕ) (s : Heads)
    → Apart head xs
    → Chain s head xs head
    → list_empty head s ≡ is_nil xs
unfolding list_empty
list_empty-Chain head [] s h (f, g) = ground (arith, f)
list_empty-Chain head (x ∷ xs) s (h, hs) ((f, g), rest) =
    ==_of_ne (s.next head) head (λ e. h (sym f ∙ e))
