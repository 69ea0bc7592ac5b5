-- ===== src/Lifecycle/Waiting.antt =====
-- sys_exit of kern/syscalls/sys_exit.c and sys_wait of kern/syscalls/sys_wait.c together.
use creeks_old.Base.{
  update, ℕ, ◌≡◌, ◌≢◌, ◌∙◌, refl, sym, ap, ap₂, Bool-cases, inl, inr, eq_of_==, ne_of_==, true,
  false, some, List, [], ◌∷◌, ◌==◌, if◌then◌else◌, arith,
}
use creeks_old.Process.{Process, Kernel, zombie, unused, is_alive, is_zombie}
use creeks_old.Signal.{set_signal, clear_signal, is_signal, sigchld}
use creeks_old.Signal.Pending.{is_signal-changes}
use creeks_old.Lifecycle.{
  blocks, become_zombie, notify_parent, exit_kernel, find_zombie, remove, waited, bury, sys_wait,
}
use creeks_old.Lifecycle.Orphans.{
  member, SameProcess, adopted, adopt_all-SameProcess, adopt_all-parent, adopt_all-child,
  adopt_all_by_0,
}

-- What the parent of the ending process sees before the children are adopted.
abbrev told : ℕ → Kernel → Kernel
told status k = notify_parent (become_zombie status k)

module _ (status : ℕ) (k : Kernel) where
  told-current : (told status k).current ≡ k.current
  unfolding notify_parent become_zombie
  told-current = ground arith

  told-child : (i : ℕ) → ((told status k).p_list i).child ≡ (k.p_list i).child
  unfolding notify_parent become_zombie
  told-child i = ground arith

  told-parent : (i : ℕ) → ((told status k).p_list i).parent ≡ (k.p_list i).parent
  unfolding notify_parent become_zombie
  told-parent i = ground arith

  told-pid : (i : ℕ) → ((told status k).p_list i).pid ≡ (k.p_list i).pid
  unfolding notify_parent become_zombie
  told-pid i = ground arith

  told-state :
      (i : ℕ)
      → ((told status k).p_list i).state ≡ (if i == k.current then zombie else (k.p_list i).state)
  unfolding notify_parent become_zombie
  told-state i = ground arith

  told-status :
      (i : ℕ)
      → ((told status k).p_list i).status ≡ (if i == k.current then status else (k.p_list i).status)
  unfolding notify_parent become_zombie
  told-status i = ground arith

  told-signal :
      let parent = (k.p_list k.current).parent in
      parent ≢ k.current
      → is_alive (k.p_list parent).state ≡ true
      → ((told status k).p_list parent).signal ≡ set_signal (k.p_list parent).signal sigchld
  unfolding notify_parent become_zombie
  told-signal h alive = ground (arith, h, alive)

-- What sys_exit of the current process makes of the table of processes.
pub record IsLeft (status : ℕ) (k k' : Kernel) : Type 0 where
  pub state : (k'.p_list k.current).state ≡ zombie
  pub answer : (k'.p_list k.current).status ≡ status
  pub parent_told : is_signal (k'.p_list (k.p_list k.current).parent).signal sigchld ≡ true
  pub orphans :
      (i : ℕ)
      → (k'.p_list i).parent
        ≡ (if member i (k.p_list k.current).child then 0 else (k.p_list i).parent)
  pub adoption : (k'.p_list 0).child ≡ adopted (k.p_list k.current).child (k.p_list 0).child
  pub others : (i : ℕ) → i ≢ k.current → (k'.p_list i).state ≡ (k.p_list i).state

module _ (status : ℕ) (k : Kernel) where
  left_same : (i : ℕ) → SameProcess ((told status k).p_list i) ((exit_kernel status k).p_list i)
  unfolding exit_kernel
  left_same i = let t = told status k in adopt_all-SameProcess ((t.p_list t.current).child) t i

  same_children :
      ((told status k).p_list (told status k).current).child ≡ (k.p_list k.current).child
  same_children =
      ap (λ c. ((told status k).p_list c).child) (told-current status k)
      ∙ told-child status k k.current

  pub left_pending :
      (k.p_list k.current).parent ≢ k.current
      → is_alive (k.p_list (k.p_list k.current).parent).state ≡ true
      → is_signal ((exit_kernel status k).p_list (k.p_list k.current).parent).signal sigchld ≡ true
  left_pending ne alive =
      let parent = (k.p_list k.current).parent in
      let e = (left_same parent).signal ∙ told-signal status k ne alive in
      let (set, clear) =
        is_signal-changes (k.p_list parent).signal sigchld sigchld (omega arith) (omega arith)
          (omega arith) (omega arith) in
      ap (λ m. is_signal m sigchld) e ∙ set

  left_child :
      (k.p_list k.current).parent ≢ k.current
      → (k.p_list k.current).parent ≢ 0
      → ((exit_kernel status k).p_list (k.p_list k.current).parent).child
        ≡ (k.p_list (k.p_list k.current).parent).child
  unfolding exit_kernel
  left_child ne nonzero =
      let t = told status k in
      let parent = (k.p_list k.current).parent in
      adopt_all-child ((t.p_list t.current).child) t parent nonzero
        (λ e. ne (e ∙ told-current status k))
      ∙ told-child status k parent

  -- sys_exit of a process other than 0, whose parent is alive and another one, makes it a zombie
  -- with its status and SIGCHLD pending for the parent; its children, and no others, become children
  -- of process 0, in front of the ones that process 0 had; no other process changes its state.
  pub exit_kernel-IsLeft :
      k.current ≢ 0
      → (k.p_list k.current).parent ≢ k.current
      → is_alive (k.p_list (k.p_list k.current).parent).state ≡ true
      → IsLeft status k (exit_kernel status k)
  unfolding exit_kernel
  exit_kernel-IsLeft nonzero ne alive =
      let t = told status k in
      let cs = (t.p_list t.current).child in
      let now = told-current status k in
      record {
        state = (left_same k.current).state ∙ (told-state status k k.current ∙ ground arith);
        answer = (left_same k.current).status ∙ (told-status status k k.current ∙ ground arith);
        parent_told = left_pending ne alive;
        orphans = λ i.
            adopt_all-parent cs t i
            ∙ ap₂ (λ l p. if member i l then 0 else p) same_children (told-parent status k i);
        adoption =
            adopt_all_by_0 cs t (λ z. nonzero (sym now ∙ z))
            ∙ ap₂ adopted same_children (told-child status k 0);
        others = λ i h. (left_same i).state ∙ (told-state status k i ∙ ground arith);
      }

zombie_found :
    (c : ℕ) (cs : List ℕ) (p_list : ℕ → Process)
    → member c cs ≡ true
    → is_zombie (p_list c).state ≡ true
    → ((i : ℕ) → i ≢ c → member i cs ≡ true → is_zombie (p_list i).state ≡ false)
    → find_zombie cs p_list ≡ some c
unfolding find_zombie member
zombie_found c [] p_list m z others = absurd (ground (arith, m))
zombie_found c (x ∷ cs) p_list m z others = elim (Bool-cases (x == c)) [
  | inl here ↦
      let e : x ≡ c = eq_of_== x c here in
      let dead : is_zombie (p_list x).state ≡ true = ap (λ i. is_zombie (p_list i).state) e ∙ z in
      rw dead (ap some e)
  | inr later ↦
      let ne : x ≢ c = ne_of_== x c later in
      let lives : is_zombie (p_list x).state ≡ false = others x ne (ground arith) in
      rw lives (
        zombie_found c cs p_list (ground (arith, m, ne)) z
          (λ i h n. others i h (ground (arith, n))))
]

-- The state in which the parent runs after its child has ended.
abbrev pub parent_runs : ℕ → Kernel → Kernel
parent_runs status k = record (exit_kernel status k) { current = (k.p_list k.current).parent }

buried :
    (c : ℕ) (k : Kernel)
    → k.current ≢ c
    → (((bury c k).p_list c).state ≡ unused)
      × ((((bury c k).p_list k.current).child ≡ remove c (k.p_list k.current).child)
          × (((bury c k).p_list k.current).signal
              ≡ clear_signal (k.p_list k.current).signal sigchld))
unfolding bury
buried c k h = (ground arith, (ground arith, ground arith))

waits :
    (c : ℕ) (k : Kernel)
    → is_signal (k.p_list k.current).signal sigchld ≡ true
    → find_zombie (k.p_list k.current).child k.p_list ≡ some c
    → sys_wait k ≡ waited (k.p_list c).pid (k.p_list c).status (bury c k)
unfolding sys_wait
waits c k pending e = rw (pending, e) refl

-- When a process other than 0 has ended with a status, and its parent, alive, another process and
-- not 0, has it among its children and no other child that is dead, the parent's sys_wait does not
-- wait: it answers the process's number and status, the process's slot is free again, the child is
-- taken off the parent's list and SIGCHLD is no longer pending.
pub sys_wait-sys_exit :
    (status : ℕ) (k : Kernel)
    → let c = k.current in
      let parent = (k.p_list c).parent in
      c ≢ 0
      → parent ≢ c
      → parent ≢ 0
      → is_alive (k.p_list parent).state ≡ true
      → member c (k.p_list parent).child ≡ true
      → ((i : ℕ)
          → i ≢ c
          → member i (k.p_list parent).child ≡ true
          → is_zombie (k.p_list i).state ≡ false)
      → (k' : Kernel) × ((sys_wait (parent_runs status k) ≡ waited (k.p_list c).pid status k')
          × (((k'.p_list c).state ≡ unused)
              × (((k'.p_list parent).child ≡ remove c (k.p_list parent).child)
                  × (is_signal (k'.p_list parent).signal sigchld ≡ false))))
sys_wait-sys_exit status k nonzero ne parent_nonzero alive mine others =
    let c = k.current in
    let parent = (k.p_list c).parent in
    let r = parent_runs status k in
    let l = exit_kernel-IsLeft status k nonzero ne alive in
    let list : (r.p_list parent).child ≡ (k.p_list parent).child =
      left_child status k ne parent_nonzero in
    let found =
      zombie_found c (k.p_list parent).child r.p_list mine (ap is_zombie l.state)
        (λ i h m. ap is_zombie (l.others i h) ∙ others i h m) in
    let (free, (child, signal)) = buried c r ne in
    let (set, clear) =
      is_signal-changes (r.p_list parent).signal sigchld sigchld (omega arith) (omega arith)
        (omega arith) (omega arith) in
    (
      bury c r,
      (
        waits c r l.parent_told (ap (λ cs. find_zombie cs r.p_list) list ∙ found)
            ∙ ap₂ (λ pid s. waited pid s (bury c r))
                ((left_same status k c).pid ∙ told-pid status k c) l.answer,
        (free, (child ∙ ap (remove c) list, ap (λ m. is_signal m sigchld) signal ∙ clear)),
      ),
    )

blocked : (k : Kernel) → is_signal (k.p_list k.current).signal sigchld ≡ false → sys_wait k ≡ blocks
unfolding sys_wait
blocked k h = rw h refl

cleared :
    (c : ℕ) (k : Kernel)
    → (((bury c k).current) ≡ k.current)
      × (is_signal ((bury c k).p_list k.current).signal sigchld ≡ false)
unfolding bury
cleared c k =
    let old = (update k.p_list c (record (k.p_list c) { state = unused }) k.current).signal in
    let (set, clear) =
      is_signal-changes old sigchld sigchld (omega arith) (omega arith) (omega arith)
        (omega arith) in
    (refl, ap (λ m. is_signal m sigchld) (ground arith) ∙ clear)

-- With SIGCHLD pending and a dead child, sys_wait answers for the first dead child, and sys_wait
-- right after it waits, whether or not another child is dead.
pub second_wait_blocks :
    (c : ℕ) (k : Kernel)
    → is_signal (k.p_list k.current).signal sigchld ≡ true
    → find_zombie (k.p_list k.current).child k.p_list ≡ some c
    → (k' : Kernel) × ((sys_wait k ≡ waited (k.p_list c).pid (k.p_list c).status k')
        × (sys_wait k' ≡ blocks))
second_wait_blocks c k pending found =
    let (now, clear) = cleared c k in
    (
      bury c k,
      (
        waits c k pending found,
        blocked (bury c k) (ap (λ i. is_signal ((bury c k).p_list i).signal sigchld) now ∙ clear),
      ),
    )
