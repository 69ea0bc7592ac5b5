-- ===== src/Elf/Range.antt =====
-- The memory image of a segment that kern/elf.c loads.
use creeks_old.Base.{
  ℕ, zero, suc, ◌+◌, ◌-◌, ◌≤◌, ◌<◌, ◌≡◌, ◌∙◌, inr, inl, true, Bool-cases, ltb→lt, ltb→le, ◌⊎◌, ◌^◌,
  leb, ltb, ◌&&◌, if◌then◌else◌, update, arith,
}
use creeks_old.Libc.{Bytes, memcpy}
use creeks_old.Libc.Memory.{block_copied, memcpy-block_copied}
use creeks_old.Mm.Paging.{user_offset}
use creeks_old.Elf.{Phdr, clear_bytes, copy_segment, is_in_user_space, user_stack}

-- Memory with zeros in a range.
unfoldable pub cleared : (n a : ℕ) → Bytes → Bytes
cleared n a m b = if leb a b && ltb b (a + n) then 0 else m b

clear_step :
    (n a : ℕ) (m : Bytes) (b : ℕ) → cleared n (a + 1) (update m a 0) b ≡ cleared (suc n) a m b
unfolding cleared
clear_step n a m b = ground arith

clear_bytes-cleared : (n a : ℕ) (m : Bytes) (b : ℕ) → clear_bytes n a m b ≡ cleared n a m b
unfolding clear_bytes cleared
clear_bytes-cleared zero a m b = ground arith
clear_bytes-cleared (suc n) a m b =
    clear_bytes-cleared n (a + 1) (update m a 0) b ∙ clear_step n a m b

-- Memory with a segment loaded: the bytes of the file, zeros up to the size in memory, and the rest
-- as before.
unfoldable pub image : (file : ℕ) → Phdr → Bytes → Bytes
image file h m a =
    if leb h.p_vaddr a && ltb a (h.p_vaddr + h.p_filesz)
    then m (file + h.p_offset + (a - h.p_vaddr))
    else if leb (h.p_vaddr + h.p_filesz) a && ltb a (h.p_vaddr + h.p_memsz)
    then 0
    else m a

padded :
    (file : ℕ) (h : Phdr) (m : Bytes) (a : ℕ)
    → h.p_filesz < h.p_memsz
    → cleared
        (h.p_memsz - h.p_filesz)
        (h.p_vaddr + h.p_filesz)
        (block_copied h.p_filesz h.p_vaddr (file + h.p_offset) m)
        a
      ≡ image file h m a
unfolding cleared block_copied image
padded file h m a lt = ground arith

whole :
    (file : ℕ) (h : Phdr) (m : Bytes) (a : ℕ)
    → h.p_memsz ≤ h.p_filesz
    → block_copied h.p_filesz h.p_vaddr (file + h.p_offset) m a ≡ image file h m a
unfolding block_copied image
whole file h m a le = ground arith

cleared-same :
    (n a : ℕ) (m m' : Bytes) (b : ℕ) → ((c : ℕ) → m c ≡ m' c) → cleared n a m b ≡ cleared n a m' b
unfolding cleared
cleared-same n a m m' b same = ground (arith, same b)

copied_image :
    (file : ℕ) (h : Phdr) (m : Bytes)
    → ((a : ℕ)
        → memcpy h.p_filesz h.p_vaddr (file + h.p_offset) m a
          ≡ block_copied h.p_filesz h.p_vaddr (file + h.p_offset) m a)
    → (a : ℕ) → copy_segment file h m a ≡ image file h m a
unfolding copy_segment
copied_image file h m block a =
    let copied = memcpy h.p_filesz h.p_vaddr (file + h.p_offset) m in
    let old = block_copied h.p_filesz h.p_vaddr (file + h.p_offset) m in
    let n = h.p_memsz - h.p_filesz in
    let from = h.p_vaddr + h.p_filesz in
    elim (Bool-cases (ltb h.p_filesz h.p_memsz)) [
      | inl longer ↦ rw longer (
          clear_bytes-cleared n from copied a
          ∙ (cleared-same n from copied old a block ∙ padded file h m a (ltb→lt _ _ longer)))
      | inr same ↦ rw same (block a ∙ whole file h m a (ltb→le _ _ same))
    ]

outside :
    (file : ℕ) (h : Phdr) (m : Bytes) (a : ℕ)
    → h.p_filesz ≤ h.p_memsz
    → (a < h.p_vaddr) ⊎ (h.p_vaddr + h.p_memsz ≤ a)
    → image file h m a ≡ m a
unfolding image
outside file h m a fits out = ground arith

-- A segment that a file below it is loaded from gives its image, and a segment that was accepted and
-- does not reach past 2^32, with no more bytes in the file than in memory, leaves every byte below
-- the user's space and every byte from the stack's end on as it was.
pub copy_segment-image :
    (file : ℕ) (h : Phdr) (m : Bytes)
    → file + h.p_offset + h.p_filesz ≤ h.p_vaddr
    → is_in_user_space h ≡ true
    → h.p_filesz ≤ h.p_memsz
    → h.p_vaddr + h.p_memsz < 2 ^ 32
    → ((a : ℕ) → copy_segment file h m a ≡ image file h m a)
      × (((a : ℕ) → a < user_offset → copy_segment file h m a ≡ m a)
          × ((a : ℕ) → user_stack ≤ a → copy_segment file h m a ≡ m a))
unfolding is_in_user_space
copy_segment-image file h m below accepted fits word =
    let block = memcpy-block_copied h.p_filesz h.p_vaddr (file + h.p_offset) m (inr below) in
    let all = copied_image file h m block in
    (
      all,
      (
        λ a low. all a ∙ outside file h m a fits (inl (ground (arith, accepted))),
        λ a high. all a ∙ outside file h m a fits (inr (ground (arith, accepted))),
      ),
    )
