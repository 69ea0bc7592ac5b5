-- ===== src/Base/Endian.antt =====
-- Numbers in memory, lowest byte first.
use Prim.Native.Nat.{ℕ, ◌+◌, ◌*◌}

-- A 16-bit word.
unfoldable pub u16_at : (ℕ → ℕ) → ℕ → ℕ
u16_at m a = m a + 0x100 * m (a + 1)

-- A 32-bit word.
unfoldable pub u32_at : (ℕ → ℕ) → ℕ → ℕ
unfolding u16_at
u32_at m a = u16_at m a + 0x10000 * u16_at m (a + 2)
