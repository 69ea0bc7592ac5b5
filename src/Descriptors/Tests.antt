-- ===== src/Descriptors/Tests.antt =====
-- Runs on descriptors, and their theorems at concrete values.
use creeks_old.Base.{ℕ, ◌+◌, ◌≤◌, ◌≡◌, ◌≢◌, refl, none, some, [], ◌∷◌, arith}
use creeks_old.Descriptors.{
  OpenFile, Files, found, find_open, answers, null_pointer, sys_open, sys_read, sys_close,
  take_descriptor,
}
use creeks_old.Descriptors.Lowest.{LowestTaken, sys_open-LowestTaken}
use creeks_old.Descriptors.Reading.{available, IsReadable, sys_read-sys_read}
use creeks_old.Descriptors.Closing.{closed_descriptor_faults, sys_open-sys_close}

abbrev of_five : OpenFile
of_five = record { file = some 5; ptr = 2 }

-- Descriptor 0 is closed, descriptor 1 stands at byte 2 of the ten bytes of file 5.
abbrev two : Files
two = record {
  files = λ f. record { inum = f; inode = some 10; mmap = 5000; opened = 1 };
  fd = record { file = none; ptr = 0 } ∷ of_five ∷ [];
  memory = λ a. 0;
}

at_one : find_open 1 two.fd ≡ found of_five
unfolding find_open
at_one = refl

lowest_is_zero : take_descriptor 7 two.fd ≡ (0, record { file = some 7; ptr = 0 } ∷ of_five ∷ [])
unfolding take_descriptor
lowest_is_zero = refl

one-IsReadable : IsReadable 1 5 10 of_five two
one-IsReadable = record {
  descriptor = at_one;
  file = refl;
  inode = refl;
  inside = omega arith;
  word = omega arith;
}

sys_open-LowestTaken_example :
    (fd : ℕ) × ((st' : Files) × ((sys_open (λ i. 10) (λ i. 9000) (some 7) two ≡ (some fd, st'))
        × (LowestTaken 7 fd two.fd st'.fd
            × (((st'.files 7).opened ≡ 2) × ((f : ℕ) → f ≢ 7 → st'.files f ≡ two.files f)))))
sys_open-LowestTaken_example = sys_open-LowestTaken (λ i. 10) (λ i. 9000) 7 two

sys_read-sys_read_example :
    (a : ℕ) × ((b : ℕ) × ((st1 : Files) × ((st2 : Files) × ((sys_read 1 100 3 two ≡ answers a st1)
            × ((sys_read 1 (100 + a) 8 st1 ≡ answers b st2)
                × ((sys_read 1 100 11 two ≡ answers (a + b) st2) × (a + b ≡ available 2 11 10)))))))
sys_read-sys_read_example =
    sys_read-sys_read 1 5 10 100 3 8 of_five two one-IsReadable (omega arith)

closed_descriptor_faults_example :
    (st' : Files) × ((sys_close 1 two ≡ answers 5000 st')
      × (((u_buf n : ℕ) → sys_read 1 u_buf n st' ≡ null_pointer)
          × (sys_close 1 st' ≡ null_pointer)))
closed_descriptor_faults_example = closed_descriptor_faults 1 5 of_five two at_one refl

sys_open-sys_close_example :
    (st' : Files) × ((sys_close 1 two ≡ answers 5000 st')
      × ((other : ℕ)
          → (fd' : ℕ) × ((st'' : Files) × ((sys_open (λ i. 10) (λ i. 9000) (some other) st'
                  ≡ (some fd', st''))
                × (fd' ≤ 1)))))
sys_open-sys_close_example = sys_open-sys_close (λ i. 10) (λ i. 9000) 1 5 of_five two at_one refl
