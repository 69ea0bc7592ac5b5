-- ===== src/Lifecycle/Tests.antt =====
-- A run of the end of a process, and its theorems at concrete values.
use creeks_old.Base.{
  some, ℕ, ◌≡◌, ◌≢◌, refl, true, false, [], ◌∷◌, ◌==◌, if◌then◌else◌, update, arith,
}
use creeks_old.Process.{Kernel, ready, zombie, unused, is_zombie}
use creeks_old.Signal.{is_signal, sigchld}
use creeks_old.Base.Bits.{bit_at}
use creeks_old.Process.Samples.{process}
use creeks_old.Lifecycle.{find_zombie, blocks, exit_kernel, waited, sys_wait, remove}
use creeks_old.Lifecycle.Orphans.{member}
use creeks_old.Lifecycle.Waiting.{
  IsLeft, exit_kernel-IsLeft, parent_runs, sys_wait-sys_exit, second_wait_blocks,
}

-- Process 4 runs; its parent is 1, its child 6.
abbrev family : Kernel
family = record {
  current = 4;
  n_proc = 3;
  tss_esp0 = 0x900FF0;
  tss_ss0 = 0x18;
  memory = λ a. 0;
  p_list =
      update
        (update
          (update (λ i. process i (if i == 0 then ready else unused)) 6
            (record (process 6 ready) { parent = 4 }))
          4 (record (process 4 ready) { parent = 1; child = 6 ∷ [] }))
        1 (record (process 1 ready) { child = 4 ∷ 3 ∷ [] });
}

only_4_dies :
    (i : ℕ) → i ≢ 4 → member i (4 ∷ 3 ∷ []) ≡ true → is_zombie (family.p_list i).state ≡ false
unfolding member
only_4_dies i h m = let e : i ≡ 3 = ground (arith, m, h) in rw e refl

four_is_mine : member 4 (4 ∷ 3 ∷ []) ≡ true
unfolding member
four_is_mine = refl

exit_kernel-IsLeft_example : IsLeft 9 family (exit_kernel 9 family)
exit_kernel-IsLeft_example =
    exit_kernel-IsLeft 9 family (λ e. omega (arith, e)) (λ e. omega (arith, e)) refl

sys_wait-sys_exit_example :
    (k' : Kernel) × ((sys_wait (parent_runs 9 family) ≡ waited 4 9 k')
      × (((k'.p_list 4).state ≡ unused)
          × (((k'.p_list 1).child ≡ remove 4 (4 ∷ 3 ∷ []))
              × (is_signal (k'.p_list 1).signal sigchld ≡ false))))
sys_wait-sys_exit_example =
    sys_wait-sys_exit 9 family (λ e. omega (arith, e)) (λ e. omega (arith, e))
      (λ e. omega (arith, e)) refl four_is_mine only_4_dies

-- Processes 3 and 4, the children of 1, are both dead.
abbrev bereaved : Kernel
bereaved = record {
  current = 1;
  n_proc = 2;
  tss_esp0 = 0x900FF0;
  tss_ss0 = 0x18;
  memory = λ a. 0;
  p_list = λ i.
      if i == 1
      then record (process 1 ready) { child = 4 ∷ 3 ∷ []; signal = 0x10000 }
      else record (process i zombie) { status = 7 };
}

pending : is_signal 0x10000 sigchld ≡ true
unfolding is_signal bit_at
pending = refl

first_dead : find_zombie (4 ∷ 3 ∷ []) bereaved.p_list ≡ some 4
unfolding find_zombie
first_dead = refl

second_wait_blocks_example :
    (k' : Kernel) × ((sys_wait bereaved ≡ waited 4 7 k') × (sys_wait k' ≡ blocks))
second_wait_blocks_example = second_wait_blocks 4 bereaved pending first_dead
