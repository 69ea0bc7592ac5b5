-- ===== src/Tasks/Family.antt =====
-- The families in the table of processes, which `load_task` of kern/process.c adds to.
use creeks_old.Base.{
  ℕ, ◌≡◌, ◌≢◌, ◌∙◌, refl, sym, ap, subst, true, false, [], ◌∷◌, All, All-map, update, update_self,
  update_ne, at_update, arith,
}
use creeks_old.Elf.Kept.{ZonesSet}
use creeks_old.Process.{ready, is_taken, Process, Kernel}
use creeks_old.Schedule.Slots.{taken_at}
use creeks_old.Tasks.{add_process, give_up}

-- A child of a process names it as its parent and has not been buried.
pub record IsChild (p_list : ℕ → Process) (q c : ℕ) : Type 0 where
  pub parent : (p_list c).parent ≡ q
  pub taken : taken_at p_list c ≡ true

pub record IsEntry (p_list : ℕ → Process) (q : ℕ) (p : Process) : Type 0 where
  pub number : p.pid ≡ q
  pub children : All (IsChild p_list q) p.child

-- Every process has its number, and the lists of children agree with the parents.
abbrev pub IsFamily : (ℕ → Process) → Type 0
IsFamily p_list = (q : ℕ) → IsEntry p_list q (p_list q)

-- The children of a table are children in a later one that keeps what was taken.
IsChild-later :
    (p_list p_list' : ℕ → Process)
    → ((c : ℕ)
        → taken_at p_list c ≡ true
        → ((p_list' c).parent ≡ (p_list c).parent) × ((p_list' c).state ≡ (p_list c).state))
    → (q c : ℕ) → IsChild p_list q c
    → IsChild p_list' q c
IsChild-later p_list p_list' keeps q c child =
    let (parent, state) = keeps c child.taken in
    record { parent = parent ∙ child.parent; taken = ap is_taken state ∙ child.taken }

module _ (k : Kernel) (pid : ℕ) (p : Process) (free : taken_at k.p_list pid ≡ false)
    (family : IsFamily k.p_list) where
  taken_elsewhere : (c : ℕ) → taken_at k.p_list c ≡ true → c ≢ pid
  taken_elsewhere c t e = ground (arith, sym t ∙ (ap (taken_at k.p_list) e ∙ free))

  pub give_up-IsFamily :
      ZonesSet (record (k.p_list pid) { pid = pid }) p → IsFamily (give_up pid p k).p_list
  unfolding give_up
  give_up-IsFamily z q =
      let later = IsChild-later k.p_list (update k.p_list pid p) (λ c t.
        let e = update_ne k.p_list pid c p (taken_elsewhere c t) in
        (ap (λ (v : Process). v.parent) e, ap (λ (v : Process). v.state) e)) in
      at_update (IsEntry (update k.p_list pid p)) k.p_list pid p
        (record {
          number = z.pid;
          children = subst (All (IsChild (update k.p_list pid p) pid)) (sym z.child) (
              All-map (IsChild k.p_list pid) (IsChild (update k.p_list pid p) pid)
                (k.p_list pid).child (later pid) (family pid).children);
        })
        q
        (λ ne. record {
          number = (family q).number;
          children =
              All-map (IsChild k.p_list q) (IsChild (update k.p_list pid p) q) (k.p_list q).child
                (later q) (family q).children;
        })

  module _ (number : p.pid ≡ pid) (childless : p.child ≡ []) (running : p.state ≡ ready)
      (apart : p.parent ≢ pid) where
    abbrev started : ℕ → Process
    started = update k.p_list pid p

    abbrev with_child : Process
    with_child = record (started p.parent) { child = pid ∷ (started p.parent).child }

    abbrev after : ℕ → Process
    after = update started p.parent with_child

    parent_kept : started p.parent ≡ k.p_list p.parent
    parent_kept = update_ne k.p_list pid p.parent p apart

    pub same_place :
        (c : ℕ) → ((after c).parent ≡ (started c).parent) × ((after c).state ≡ (started c).state)
    same_place c =
        at_update (λ x v. (v.parent ≡ (started x).parent) × (v.state ≡ (started x).state)) started
          p.parent with_child (refl, refl) c (λ ne. (refl, refl))

    keeps_taken :
        (c : ℕ)
        → taken_at k.p_list c ≡ true
        → ((after c).parent ≡ (k.p_list c).parent) × ((after c).state ≡ (k.p_list c).state)
    keeps_taken c t =
        let e = update_ne k.p_list pid c p (taken_elsewhere c t) in
        let (parent, state) = same_place c in
        (parent ∙ ap (λ (v : Process). v.parent) e, state ∙ ap (λ (v : Process). v.state) e)

    new-IsChild : IsChild after p.parent pid
    new-IsChild =
        let (parent, state) = same_place pid in
        let at = update_self k.p_list pid p in
        record {
          parent = parent ∙ ap (λ (v : Process). v.parent) at;
          taken = ap is_taken (state ∙ (ap (λ (v : Process). v.state) at ∙ running));
        }

    old_children : (q : ℕ) → All (IsChild after q) (k.p_list q).child
    old_children q =
        All-map (IsChild k.p_list q) (IsChild after q) (k.p_list q).child
          (IsChild-later k.p_list after keeps_taken q) (family q).children

    pub add_process-IsFamily : IsFamily (add_process pid p k).p_list
    unfolding add_process
    add_process-IsFamily q =
        at_update (IsEntry after) started p.parent with_child
          (record {
            number = ap (λ (v : Process). v.pid) parent_kept ∙ (family p.parent).number;
            children = (
              new-IsChild,
              subst (λ (v : Process). All (IsChild after p.parent) v.child) (sym parent_kept)
                  (old_children p.parent),
            );
          })
          q
          (λ ne.
            at_update (IsEntry after) k.p_list pid p
              (record {
                number = number;
                children = subst (All (IsChild after pid)) (sym childless) tt;
              })
              q (λ ne'. record { number = (family q).number; children = old_children q }))

    pub same_regs : (c : ℕ) → (after c).regs ≡ (started c).regs
    same_regs c =
        at_update (λ x v. v.regs ≡ (started x).regs) started p.parent with_child refl c (λ ne. refl)

    pub children_of_parent : (after p.parent).child ≡ pid ∷ (k.p_list p.parent).child
    children_of_parent =
        ap (λ (v : Process). v.child) (update_self started p.parent with_child)
        ∙ ap (λ (v : Process). pid ∷ v.child) parent_kept

    pub states_elsewhere : (c : ℕ) → c ≢ pid → (after c).state ≡ (k.p_list c).state
    states_elsewhere c ne =
        let (parent, state) = same_place c in
        state ∙ ap (λ (v : Process). v.state) (update_ne k.p_list pid c p ne)
