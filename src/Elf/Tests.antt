-- ===== src/Elf/Tests.antt =====
-- A run of the loader, and its theorem at a concrete segment.
use creeks_old.Base.{ℕ, ◌≤◌, ◌<◌, ◌≡◌, refl, true, false, arith}
use creeks_old.Libc.{Bytes}
use creeks_old.Mm.Paging.{user_offset}
use creeks_old.Elf.{Phdr, copy_segment, is_in_user_space, is_elf, user_stack}
use creeks_old.Elf.Range.{image, copy_segment-image}

-- Eight bytes of the file at 0x1000, sixteen bytes in memory.
abbrev text : Phdr
text = record {
  p_type = 1;
  p_offset = 0x100;
  p_vaddr = 0x40001000;
  p_filesz = 8;
  p_memsz = 16;
  p_flags = 5;
}

abbrev sevens : Bytes
sevens a = 7

not_elf : is_elf 0x1000 sevens ≡ false
unfolding is_elf
not_elf = refl

text_accepted : is_in_user_space text ≡ true
unfolding is_in_user_space
text_accepted = refl

copy_segment-image_example :
    ((a : ℕ) → copy_segment 0x1000 text sevens a ≡ image 0x1000 text sevens a)
    × (((a : ℕ) → a < user_offset → copy_segment 0x1000 text sevens a ≡ 7)
        × ((a : ℕ) → user_stack ≤ a → copy_segment 0x1000 text sevens a ≡ 7))
copy_segment-image_example =
    copy_segment-image 0x1000 text sevens (omega arith) text_accepted (omega arith) (omega arith)
