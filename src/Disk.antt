-- ===== src/Disk.antt =====
-- The disk driver, kern/disk.c. The controller is hardware: `Controller` holds what the driver's port
-- writes leave in its registers, and what its data port gives is a parameter. A buffer that a
-- function allocates and frees itself is a value of its own. An `int` is its 32-bit word.
pub mod Transfer
pub mod Writing
pub mod Tests
use creeks_old.Base.{
  ℕ, zero, suc, ◌+◌, ◌-◌, ◌*◌, ◌/◌, ◌%◌, ◌^◌, Bool, List, [], ◌∷◌, ◌==◌, ltb, leb, ◌&&◌,
  if◌then◌else◌, update,
}
use creeks_old.Libc.{Bytes, memcpy}

-- The registers 0x1F2 to 0x1F6 of the controller.
pub record Controller : Type 0 where
  pub count : ℕ
  pub low : ℕ
  pub middle : ℕ
  pub high : ℕ
  pub device : ℕ

-- The five port writes behind the first one; a port takes a byte. The drive's number is 0 or 1.
unfoldable pub bl_common : (drive numblock count : ℕ) → Controller
bl_common drive numblock count = record {
  count = count % 0x100;
  low = numblock % 0x100;
  middle = numblock / 2 ^ 8 % 0x100;
  high = numblock / 2 ^ 16 % 0x100;
  device = 0xE0 + drive % 2 * 0x10 + numblock / 2 ^ 24 % 0x10;
}

-- The word number `idx` that a read from port 0x1F0 gives after a command.
abbrev pub Port : Type 0
Port = Controller → ℕ → ℕ

-- `for (idx = 0; idx < 256 * count; idx++)` with the rounds left.
unfoldable pub read_words : Port → Controller → (left idx : ℕ) → Bytes → Bytes
read_words port c zero idx buf = buf
read_words port c (suc left) idx buf =
    let tmpword = port c idx in
    read_words port c left (idx + 1)
      (update (update buf (idx * 2) (tmpword % 0x100)) (idx * 2 + 1) (tmpword / 2 ^ 8 % 0x100))

-- The rounds of `idx < 256 * count`, none for a negative product.
unfoldable pub rounds : ℕ → ℕ
rounds count = let n = 256 * count % 2 ^ 32 in if ltb n (2 ^ 31) then n else 0

-- The buffer after the transfer.
unfoldable pub bl_read : Port → (drive numblock count : ℕ) → Bytes → Bytes
unfolding bl_common read_words rounds
bl_read port drive numblock count buf =
    read_words port (bl_common drive numblock count) (rounds count) 0 buf

-- `(buf[idx * 2 + 1] << 8) | buf[idx * 2]` as a u16: a char is signed, so that a low byte from 0x80 on
-- brings ones into the high byte.
unfoldable pub tmp_word : (high low : ℕ) → ℕ
tmp_word high low = if ltb low 0x80 then high * 2 ^ 8 + low else 0xFF00 + low

-- The words that are written to port 0x1F0.
unfoldable pub write_words : (left idx : ℕ) → Bytes → List ℕ
unfolding tmp_word
write_words zero idx buf = []
write_words (suc left) idx buf =
    tmp_word (buf (idx * 2 + 1)) (buf (idx * 2)) ∷ write_words left (idx + 1) buf

-- The command and the words of a transfer to the disk.
unfoldable pub bl_write : (drive numblock count : ℕ) → Bytes → Controller × List ℕ
unfolding bl_common write_words rounds
bl_write drive numblock count buf =
    (bl_common drive numblock count, write_words (rounds count) 0 buf)

-- `x / 512` and `x % 512`, which round a negative number towards 0.
unfoldable pub quotient : ℕ → ℕ
quotient x = if ltb x (2 ^ 31) then x / 512 else (2 ^ 32 - (2 ^ 32 - x) / 512) % 2 ^ 32

unfoldable pub remainder : ℕ → ℕ
remainder x = if ltb x (2 ^ 31) then x % 512 else (2 ^ 32 - (2 ^ 32 - x) % 512) % 2 ^ 32

-- `bl_end - bl_begin + 1`
unfoldable pub blocks : (offset count : ℕ) → ℕ
unfolding quotient
blocks offset count = (quotient ((offset + count) % 2 ^ 32) + 2 ^ 32 - quotient offset + 1) % 2 ^ 32

-- `buf` is an address of the memory `m`.
unfoldable pub disk_write : (drive offset buf count : ℕ) → Bytes → Controller × List ℕ
unfolding bl_write quotient blocks
disk_write drive offset buf count m =
    bl_write drive (quotient offset) (blocks offset count) (λ i. m (buf + i))

-- The bytes of `bl_buffer`, which is allocated here.
unfoldable pub transfer : Port → (drive offset count : ℕ) → Bytes
unfolding bl_read quotient blocks
transfer port drive offset count =
    bl_read port drive (quotient offset) (blocks offset count) (λ i. 0)

-- `memcpy` from a buffer of its own into memory.
unfoldable pub copy_from : (n dst : ℕ) → Bytes → (src : ℕ) → Bytes → Bytes
copy_from zero dst source src m = m
copy_from (suc n) dst source src m =
    copy_from n (dst + 1) source (src + 1) (update m dst (source src))

unfoldable pub disk_read : Port → (drive offset buf count : ℕ) → Bytes → Bytes
unfolding transfer copy_from remainder
disk_read port drive offset buf count m =
    copy_from count buf (transfer port drive offset count) (remainder offset) m
