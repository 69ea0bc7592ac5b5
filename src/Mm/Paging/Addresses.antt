-- ===== src/Mm/Paging/Addresses.antt =====
-- Where the words of the page tables lie.
use creeks_old.Base.{ℕ, ◌+◌, ◌*◌, ◌/◌, ◌^◌, ◌<◌, ◌≡◌, refl, arith}
use creeks_old.Base.Bits.Words.{bit_and-ones, bit_and-high, bit_or-disjoint}
use creeks_old.Mm.Paging.{pde_address, pte_address}
use Prim.Native.Nat.{bit_and}

-- The word of the directory entry of an address is in the last page, at the index that the upper ten
-- bits give.
pub pde_address_lem : (v : ℕ) → v < 2 ^ 32 → pde_address v ≡ 0xFFFFF000 + v / 2 ^ 22 * 4
unfolding pde_address
pde_address_lem v h =
    let mask : bit_and v 0xFFC00000 ≡ v / 2 ^ 22 * 2 ^ 22 =
      omega (arith, bit_and-high 22 v 0x3FF, bit_and-ones 10 (v / 2 ^ 22) 0x3FF refl) in
    let shift : bit_and v 0xFFC00000 / 2 ^ 20 ≡ v / 2 ^ 22 * 4 = omega (arith, mask) in
    rw shift (bit_or-disjoint 12 0xFFFFF (v / 2 ^ 22 * 4) (omega arith))

-- The word of the table entry of an address is in the last 4 MB, at the index of its page.
pub pte_address_lem : (v : ℕ) → v < 2 ^ 32 → pte_address v ≡ 0xFFC00000 + v / 2 ^ 12 * 4
unfolding pte_address
pte_address_lem v h =
    let mask : bit_and v 0xFFFFF000 ≡ v / 2 ^ 12 * 2 ^ 12 =
      omega (arith, bit_and-high 12 v 0xFFFFF, bit_and-ones 20 (v / 2 ^ 12) 0xFFFFF refl) in
    let shift : bit_and v 0xFFFFF000 / 2 ^ 10 ≡ v / 2 ^ 12 * 4 = omega (arith, mask) in
    rw shift (bit_or-disjoint 22 0x3FF (v / 2 ^ 12 * 4) (omega arith))
