-- ===== src/Elf.antt =====
-- Loading an executable, kern/elf.c and kern/elf.h. The file and the process's memory are one memory,
-- by byte; numbers in the file are read lowest byte first.
pub mod Range
pub mod Kept
mod Tests
use creeks_old.Base.{
  ℕ, zero, suc, ◌+◌, ◌-◌, ◌*◌, ◌%◌, ◌^◌, Bool, true, false, ◌==◌, ltb, ◌&&◌, if◌then◌else◌, update,
}
use creeks_old.Base.Endian.{u16_at, u32_at}
use creeks_old.Libc.{Bytes, memcpy}
use creeks_old.Mm.Paging.{user_offset}
use creeks_old.Process.{Process}

-- `USER_STACK`, `PT_LOAD`, `PF_X`, `PF_W`, `PF_R`
abbrev pub user_stack : ℕ
user_stack = 0xE0000000

abbrev pub pt_load : ℕ
pt_load = 1

abbrev pub pf_x : ℕ
pf_x = 1

abbrev pub pf_w : ℕ
pf_w = 2

abbrev pub pf_r : ℕ
pf_r = 4

-- The fields of `Elf32_Ehdr` that are used.
pub record Ehdr : Type 0 where
  pub e_entry : ℕ
  pub e_phoff : ℕ
  pub e_phnum : ℕ

unfoldable pub ehdr_at : Bytes → ℕ → Ehdr
unfolding u32_at u16_at
ehdr_at m file = record {
  e_entry = u32_at m (file + 24);
  e_phoff = u32_at m (file + 28);
  e_phnum = u16_at m (file + 44);
}

-- The fields of `Elf32_Phdr` that are used.
pub record Phdr : Type 0 where
  pub p_type : ℕ
  pub p_offset : ℕ
  pub p_vaddr : ℕ
  pub p_filesz : ℕ
  pub p_memsz : ℕ
  pub p_flags : ℕ

unfoldable pub phdr_at : Bytes → ℕ → Phdr
unfolding u32_at
phdr_at m a = record {
  p_type = u32_at m a;
  p_offset = u32_at m (a + 4);
  p_vaddr = u32_at m (a + 8);
  p_filesz = u32_at m (a + 16);
  p_memsz = u32_at m (a + 20);
  p_flags = u32_at m (a + 24);
}

unfoldable pub is_elf : ℕ → Bytes → Bool
is_elf file m =
    (m file == 0x7F) && ((m (file + 1) == 69) && ((m (file + 2) == 76) && (m (file + 3) == 70)))

-- The loop that clears `n` bytes from `a` on.
unfoldable pub clear_bytes : (n a : ℕ) → Bytes → Bytes
clear_bytes zero a m = m
clear_bytes (suc n) a m = clear_bytes n (a + 1) (update m a 0)

-- The zones of the process that a segment describes.
unfoldable pub set_zones : Phdr → (v_end : ℕ) → Process → Process
set_zones h v_end p =
    let exec = record p { b_exec = h.p_vaddr; e_exec = v_end } in
    let bss = record p { b_bss = h.p_vaddr; e_bss = v_end } in
    if h.p_flags == pf_x + pf_r then exec else if h.p_flags == pf_w + pf_r then bss else p

-- The bytes of a segment: what the file has, and zeros behind it.
unfoldable pub copy_segment : (file : ℕ) → Phdr → Bytes → Bytes
unfolding memcpy clear_bytes
copy_segment file h m =
    let copied = memcpy h.p_filesz h.p_vaddr (file + h.p_offset) m in
    if ltb h.p_filesz h.p_memsz
    then clear_bytes (h.p_memsz - h.p_filesz) (h.p_vaddr + h.p_filesz) copied
    else copied

-- `p_vaddr + p_memsz` on 32 bits
abbrev pub segment_end : Phdr → ℕ
segment_end h = (h.p_vaddr + h.p_memsz) % 2 ^ 32

-- Whether a segment may be loaded.
unfoldable pub is_in_user_space : Phdr → Bool
is_in_user_space h =
    if ltb h.p_vaddr user_offset
    then false
    else if ltb user_stack (segment_end h)
    then false
    else true

-- The answer, 0 for a file that cannot be loaded, with what was loaded until then.
pub record Loaded : Type 0 where
  pub entry : ℕ
  pub memory : Bytes
  pub process : Process

-- The loop over the program headers that are left, from the one at `p_entry` on.
unfoldable pub load_segments : (left p_entry file entry : ℕ) → Bytes → Process → Loaded
unfolding phdr_at set_zones copy_segment is_in_user_space
load_segments zero p_entry file entry m p = record { entry = entry; memory = m; process = p }
load_segments (suc left) p_entry file entry m p =
    let h = phdr_at m p_entry in
    let skip = load_segments left (p_entry + 32) file entry m p in
    let load =
      load_segments left (p_entry + 32) file entry (copy_segment file h m)
        (set_zones h (segment_end h) p) in
    if h.p_type == pt_load
    then (if is_in_user_space h then load else record { entry = 0; memory = m; process = p })
    else skip

unfoldable pub load_elf : ℕ → Bytes → Process → Loaded
unfolding ehdr_at is_elf load_segments
load_elf file m p =
    let h = ehdr_at m file in
    if is_elf file m
    then load_segments h.e_phnum (file + h.e_phoff) file h.e_entry m p
    else record { entry = 0; memory = m; process = p }
