-- ===== src/Tasks/Stack.antt =====
-- The arguments that `load_task` of kern/process.c leaves for `main` on the user's stack.
use creeks_old.Base.{
  ℕ, zero, suc, ◌+◌, ◌-◌, ◌*◌, ◌/◌, ◌%◌, ◌^◌, ◌≤◌, ◌<◌, ◌≡◌, ◌∙◌, refl, sym, ap, subst, inr, List,
  [], ◌∷◌, length, get_or, arith,
}
use creeks_old.Base.Endian.{u32_at}
use creeks_old.Libc.{Bytes}
use creeks_old.Elf.{user_stack}
use creeks_old.Tasks.{
  ArgStack, put_strings, push, push_pointers, push_frame, push_arguments, user_stack_of,
}
use creeks_old.Tasks.Strings.{room, AllStand, put_strings-stackp, put_strings-AllStand}
use creeks_old.Tasks.Words.{Stands, Stands-same, put_u32_apart, u32_at-put_u32, u32_at-same}

-- The memory keeps what stands at an address and above.
KeepsAbove : (a : ℕ) → Bytes → Bytes → Type 0
KeepsAbove a m m' = (b : ℕ) → a ≤ b → m' b ≡ m b

push-KeepsAbove :
    (w : ℕ) (s : ArgStack) → 4 ≤ s.stackp → KeepsAbove s.stackp s.memory (push w s).memory
unfolding push KeepsAbove
push-KeepsAbove w s h b l = put_u32_apart (s.stackp - 4) w s.memory b (inr (omega (arith, h, l)))

-- The words that are pushed, the first one lowest.
record Pushed (ps : List ℕ) (s s' : ArgStack) : Type 0 where
  lower : s'.stackp ≡ s.stackp - 4 * length ps
  keeps : KeepsAbove s.stackp s.memory s'.memory
  words : (i : ℕ) → i < length ps → u32_at s'.memory (s'.stackp + 4 * i) ≡ get_or ps i 0

push-stackp : (w : ℕ) (s : ArgStack) → (push w s).stackp ≡ s.stackp - 4
unfolding push
push-stackp w s = refl

u32_at-push : (w : ℕ) (s : ArgStack) → w < 2 ^ 32 → u32_at (push w s).memory (s.stackp - 4) ≡ w
unfolding push
u32_at-push w s h = u32_at-put_u32 (s.stackp - 4) w s.memory h

u32_at-KeepsAbove : (a b : ℕ) (m m' : Bytes) → KeepsAbove a m m' → a ≤ b → u32_at m' b ≡ u32_at m b
unfolding KeepsAbove
u32_at-KeepsAbove a b m m' keeps h = u32_at-same m' m b (λ c l l'. keeps c (omega (arith, h, l)))

KeepsAbove-trans :
    (a b : ℕ) (m m' m'' : Bytes)
    → KeepsAbove a m m'
    → KeepsAbove b m' m''
    → b ≤ a
    → KeepsAbove a m m''
unfolding KeepsAbove
KeepsAbove-trans a b m m' m'' k k' h c l = k' c (omega (arith, h, l)) ∙ k c l

push-word :
    (p : ℕ) (ps : List ℕ) (s t : ArgStack)
    → 4 ≤ t.stackp
    → p < 2 ^ 32
    → Pushed ps s t
    → (i : ℕ) → i < length (p ∷ ps)
    → u32_at (push p t).memory ((push p t).stackp + 4 * i) ≡ get_or (p ∷ ps) i 0
push-word p ps s t h small r zero l =
    let e : (push p t).stackp + 4 * 0 ≡ t.stackp - 4 = omega (arith, push-stackp p t) in
    rw e (u32_at-push p t small)
push-word p ps s t h small r (suc i) l =
    let e : (push p t).stackp + 4 * suc i ≡ t.stackp + 4 * i = omega (arith, push-stackp p t, h) in
    rw e (
      u32_at-KeepsAbove t.stackp (t.stackp + 4 * i) t.memory (push p t).memory
        (push-KeepsAbove p t h) (omega arith)
      ∙ r.words i (omega (arith, l)))

push_pointers-Pushed :
    (ps : List ℕ) (s : ArgStack)
    → 4 * length ps ≤ s.stackp
    → ((i : ℕ) → i < length ps → get_or ps i 0 < 2 ^ 32)
    → Pushed ps s (push_pointers ps s)
unfolding push_pointers KeepsAbove
push_pointers-Pushed [] s h small = record {
  lower = omega arith;
  keeps = λ b l. refl;
  words = λ i l. absurd (omega (arith, l));
}
push_pointers-Pushed (p ∷ ps) s h small =
    let r =
      push_pointers-Pushed ps s (omega (arith, h)) (λ i l. small (suc i) (omega (arith, l))) in
    let t = push_pointers ps s in
    let e = push-stackp p t in
    let above : 4 ≤ t.stackp = omega (arith, h, r.lower) in
    record {
      lower = omega (arith, h, e, r.lower);
      keeps =
          KeepsAbove-trans s.stackp t.stackp s.memory t.memory (push p t).memory r.keeps
            (push-KeepsAbove p t above) (omega (arith, r.lower));
      words = push-word p ps s t above (small 0 (omega arith)) r;
    }

-- What `main` finds above the return address that its stack pointer leaves room for: the number of the
-- arguments, the address of the pointers, the pointers, and a zero behind them.
pub record HasArguments (argv : List (List ℕ)) (esp : ℕ) (m : Bytes) : Type 0 where
  pub argc_word : u32_at m (esp + 4) ≡ length argv
  pub argv_word : u32_at m (esp + 8) ≡ esp + 12
  pub pointers :
      (i : ℕ) → i < length argv → Stands m (u32_at m (esp + 12 + 4 * i)) (get_or argv i [])
  pub last : u32_at m (esp + 12 + 4 * length argv) ≡ 0

module _ (argv : List (List ℕ)) (strings : ArgStack) (high : ℕ)
    (all : AllStand strings.memory strings.stackp high strings.uparam argv) (bound : high < 2 ^ 32)
    (space : 4 * length argv + 64 ≤ strings.stackp) (under : strings.stackp ≤ high) where
  abbrev aligned : ArgStack
  aligned = record strings { stackp = strings.stackp / 16 * 16 }

  abbrev t1 : ArgStack
  t1 = push 0 aligned

  abbrev t2 : ArgStack
  t2 = push_pointers strings.uparam t1

  abbrev t3 : ArgStack
  t3 = push t2.stackp t2

  abbrev t4 : ArgStack
  t4 = push (length argv) t3

  low_1 : t1.stackp ≡ strings.stackp / 16 * 16 - 4
  low_1 = push-stackp 0 aligned

  small : (i : ℕ) → i < length strings.uparam → get_or strings.uparam i 0 < 2 ^ 32
  small i l = let r = all.each i (omega (arith, l, all.count)) in omega (arith, r.below, bound)

  pushed : Pushed strings.uparam t1 t2
  pushed = push_pointers-Pushed strings.uparam t1 (omega (arith, space, low_1, all.count)) small

  low_2 : t2.stackp ≡ strings.stackp / 16 * 16 - 4 - 4 * length argv
  low_2 = omega (arith, pushed.lower, low_1, all.count)

  low_3 : t3.stackp ≡ t2.stackp - 4
  low_3 = push-stackp t2.stackp t2

  low_4 : t4.stackp ≡ t3.stackp - 4
  low_4 = push-stackp (length argv) t3

  keeps_1 : KeepsAbove aligned.stackp strings.memory t1.memory
  keeps_1 = push-KeepsAbove 0 aligned (omega (arith, space))

  keeps_4 : KeepsAbove t3.stackp t3.memory t4.memory
  keeps_4 = push-KeepsAbove (length argv) t3 (omega (arith, space, low_2, low_3))

  keeps_34 : KeepsAbove t2.stackp t2.memory t4.memory
  keeps_34 =
      KeepsAbove-trans t2.stackp t3.stackp t2.memory t3.memory t4.memory
        (push-KeepsAbove t2.stackp t2 (omega (arith, space, low_2))) keeps_4 (omega (arith, low_3))

  keeps_24 : KeepsAbove t1.stackp t1.memory t4.memory
  keeps_24 =
      KeepsAbove-trans t1.stackp t2.stackp t1.memory t2.memory t4.memory pushed.keeps keeps_34
        (omega (arith, low_1, low_2))

  keeps_all : KeepsAbove strings.stackp strings.memory t4.memory
  unfolding KeepsAbove
  keeps_all b l = keeps_24 b (omega (arith, l, low_1)) ∙ keeps_1 b (omega (arith, l))

  pointer_of :
      (i : ℕ) → i < length argv → u32_at t4.memory (t2.stackp + 4 * i) ≡ get_or strings.uparam i 0
  pointer_of i l =
      u32_at-KeepsAbove t2.stackp (t2.stackp + 4 * i) t2.memory t4.memory keeps_34 (omega arith)
      ∙ pushed.words i (omega (arith, l, all.count))

  string_of :
      (i : ℕ) → i < length argv → Stands t4.memory (get_or strings.uparam i 0) (get_or argv i [])
  unfolding KeepsAbove
  string_of i l =
      let r = all.each i l in
      Stands-same strings.memory t4.memory (get_or strings.uparam i 0) (get_or argv i [])
        (λ b low high. keeps_all b (omega (arith, low, r.above))) r.stand

  push_frame-HasArguments :
      let s = push_frame (length argv) strings in
      HasArguments argv s.stackp s.memory × ((s.stackp + 4 * length argv) % 16 ≡ 0)
  unfolding push_frame
  push_frame-HasArguments =
      let esp = t4.stackp - 4 in
      let at_argc : esp + 4 ≡ t3.stackp - 4 = omega (arith, space, low_2, low_3, low_4) in
      let at_argv : esp + 8 ≡ t2.stackp - 4 = omega (arith, space, low_2, low_3, low_4) in
      let base : esp + 12 ≡ t2.stackp = omega (arith, space, low_2, low_3, low_4) in
      let end : t2.stackp + 4 * length argv ≡ aligned.stackp - 4 = omega (arith, space, low_2) in
      (
        record {
          argc_word =
              ap (u32_at t4.memory) at_argc
              ∙ u32_at-push (length argv) t3 (omega (arith, space, under, bound));
          argv_word =
              ap (u32_at t4.memory) at_argv
              ∙ (u32_at-KeepsAbove t3.stackp (t2.stackp - 4) t3.memory t4.memory keeps_4
                    (omega (arith, low_3))
                  ∙ (u32_at-push t2.stackp t2 (omega (arith, low_2, under, bound)) ∙ sym base));
          pointers = λ i l.
              subst (λ p. Stands t4.memory p (get_or argv i []))
                (sym (ap (λ a. u32_at t4.memory (a + 4 * i)) base ∙ pointer_of i l))
                (string_of i l);
          last =
              ap (λ a. u32_at t4.memory (a + 4 * length argv)) base
              ∙ (ap (u32_at t4.memory) end
                  ∙ (u32_at-KeepsAbove t1.stackp (aligned.stackp - 4) t1.memory t4.memory keeps_24
                        (omega (arith, low_1))
                      ∙ u32_at-push 0 aligned (omega arith)));
        },
        omega (arith, space, low_2, low_3, low_4),
      )

-- For arguments that have room in the user's space below the stack, load_task leaves on the user's
-- stack what main expects: above the place of the return address argc, argv, and the array that argv
-- points to, with a pointer to each argument in order and a null pointer behind them, where each
-- argument stands as a string that ends in zero. The stack pointer is a multiple of 16 less four bytes
-- for each argument.
pub user_stack_of-HasArguments :
    (s : List ℕ) (ss : List (List ℕ)) (m : Bytes)
    → let argv = s ∷ ss in
      room argv + 4 * length argv + 80 ≤ user_stack
      → let stack = user_stack_of argv m in
        HasArguments argv stack.stackp stack.memory × ((stack.stackp + 4 * length argv) % 16 ≡ 0)
unfolding user_stack_of push_arguments
user_stack_of-HasArguments s ss m h =
    let argv = s ∷ ss in
    let strings = put_strings argv (user_stack - 16) m in
    let at = put_strings-stackp argv (user_stack - 16) m in
    push_frame-HasArguments argv strings (user_stack - 16)
      (subst (λ low. AllStand strings.memory low (user_stack - 16) strings.uparam argv) (sym at)
        (put_strings-AllStand argv (user_stack - 16) m (omega (arith, h))))
      (omega arith) (omega (arith, at, h)) (omega (arith, at))
