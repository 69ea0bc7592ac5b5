-- ===== src/Libc/Memory.antt =====
-- `memcpy` of kern/lib.c as one assignment to the whole block.
use creeks_old.Base.{
  ℕ, zero, suc, ◌+◌, ◌-◌, ◌≤◌, ◌≡◌, ◌∙◌, ◌⊎◌, leb, ltb, ◌&&◌, if◌then◌else◌, update, arith,
}
use creeks_old.Libc.{Bytes, memcpy}

-- The state of memory after copying a block.
unfoldable pub block_copied : (n dst src : ℕ) → Bytes → Bytes
block_copied n dst src m a = if leb dst a && ltb a (dst + n) then m (src + (a - dst)) else m a

copy_step :
    (n dst src : ℕ) (m : Bytes) (a : ℕ)
    → (dst ≤ src) ⊎ (src + suc n ≤ dst)
    → block_copied n (suc dst) (suc src) (update m dst (m src)) a ≡ block_copied (suc n) dst src m a
unfolding block_copied
copy_step n dst src m a apart = ground arith

-- memcpy copies the block as a whole when the destination starts at or below the source, or behind
-- the source's end: every byte of the destination gets the byte that the source held at first, and
-- no other byte changes.
pub memcpy-block_copied :
    (n dst src : ℕ) (m : Bytes)
    → (dst ≤ src) ⊎ (src + n ≤ dst)
    → (a : ℕ) → memcpy n dst src m a ≡ block_copied n dst src m a
unfolding memcpy block_copied
memcpy-block_copied zero dst src m apart a = ground arith
memcpy-block_copied (suc n) dst src m apart a =
    memcpy-block_copied n (suc dst) (suc src) (update m dst (m src)) (ground (arith, apart)) a
    ∙ copy_step n dst src m a apart
