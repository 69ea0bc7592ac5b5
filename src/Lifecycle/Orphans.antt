-- ===== src/Lifecycle/Orphans.antt =====
-- The children of a process that ends, in sys_exit of kern/syscalls/sys_exit.c.
use creeks_old.Base.{
  ℕ, ◌≡◌, ◌≢◌, ◌∙◌, refl, ap, Bool, false, List, [], ◌∷◌, ◌==◌, ◌||◌, if◌then◌else◌, arith,
}
use creeks_old.Process.{Process, Kernel}
use creeks_old.Lifecycle.{adopt_one, adopt_all}

unfoldable pub member : ℕ → List ℕ → Bool
member i [] = false
member i (c ∷ cs) = (i == c) || member i cs

-- The fields that adoption does not touch.
pub record SameProcess (p q : Process) : Type 0 where
  pub pid : q.pid ≡ p.pid
  pub state : q.state ≡ p.state
  pub status : q.status ≡ p.status
  pub signal : q.signal ≡ p.signal

one_kept :
    (c : ℕ) (rest : List ℕ) (k : Kernel) (i : ℕ)
    → SameProcess (k.p_list i) ((adopt_one c rest k).p_list i)
unfolding adopt_one
one_kept c rest k i = record {
  pid = ground arith;
  state = ground arith;
  status = ground arith;
  signal = ground arith;
}

pub adopt_all-SameProcess :
    (cs : List ℕ) (k : Kernel) (i : ℕ) → SameProcess (k.p_list i) ((adopt_all cs k).p_list i)
unfolding adopt_all
adopt_all-SameProcess [] k i = record { pid = refl; state = refl; status = refl; signal = refl }
adopt_all-SameProcess (c ∷ cs) k i =
    let a = one_kept c cs k i in
    let b = adopt_all-SameProcess cs (adopt_one c cs k) i in
    record {
      pid = b.pid ∙ a.pid;
      state = b.state ∙ a.state;
      status = b.status ∙ a.status;
      signal = b.signal ∙ a.signal;
    }

one_current : (c : ℕ) (rest : List ℕ) (k : Kernel) → (adopt_one c rest k).current ≡ k.current
unfolding adopt_one
one_current c rest k = refl

pub adopt_all-current : (cs : List ℕ) (k : Kernel) → (adopt_all cs k).current ≡ k.current
unfolding adopt_all
adopt_all-current [] k = refl
adopt_all-current (c ∷ cs) k = adopt_all-current cs (adopt_one c cs k) ∙ one_current c cs k

one_parent :
    (c : ℕ) (rest : List ℕ) (k : Kernel) (i : ℕ)
    → ((adopt_one c rest k).p_list i).parent ≡ (if i == c then 0 else (k.p_list i).parent)
unfolding adopt_one
one_parent c rest k i = ground arith

pub adopt_all-parent :
    (cs : List ℕ) (k : Kernel) (i : ℕ)
    → ((adopt_all cs k).p_list i).parent ≡ (if member i cs then 0 else (k.p_list i).parent)
unfolding adopt_all member
adopt_all-parent [] k i = refl
adopt_all-parent (c ∷ cs) k i =
    adopt_all-parent cs (adopt_one c cs k) i ∙ ground (arith, one_parent c cs k i)

one_child :
    (c : ℕ) (rest : List ℕ) (k : Kernel) (i : ℕ)
    → i ≢ 0
    → i ≢ k.current
    → ((adopt_one c rest k).p_list i).child ≡ (k.p_list i).child
unfolding adopt_one
one_child c rest k i a b = ground arith

pub adopt_all-child :
    (cs : List ℕ) (k : Kernel) (i : ℕ)
    → i ≢ 0
    → i ≢ k.current
    → ((adopt_all cs k).p_list i).child ≡ (k.p_list i).child
unfolding adopt_all
adopt_all-child [] k i a b = refl
adopt_all-child (c ∷ cs) k i a b =
    adopt_all-child cs (adopt_one c cs k) i a (λ e. b (e ∙ one_current c cs k))
    ∙ one_child c cs k i a b

-- The adopted children come first, the last one foremost.
unfoldable pub adopted : List ℕ → List ℕ → List ℕ
adopted [] old = old
adopted (c ∷ cs) old = adopted cs (c ∷ old)

one_child_of_0 :
    (c : ℕ) (rest : List ℕ) (k : Kernel)
    → k.current ≢ 0
    → ((adopt_one c rest k).p_list 0).child ≡ c ∷ (k.p_list 0).child
unfolding adopt_one
one_child_of_0 c rest k h = ground arith

pub adopt_all_by_0 :
    (cs : List ℕ) (k : Kernel)
    → k.current ≢ 0
    → ((adopt_all cs k).p_list 0).child ≡ adopted cs (k.p_list 0).child
unfolding adopt_all adopted
adopt_all_by_0 [] k h = refl
adopt_all_by_0 (c ∷ cs) k h =
    adopt_all_by_0 cs (adopt_one c cs k) (λ e. h e) ∙ ap (adopted cs) (one_child_of_0 c cs k h)
