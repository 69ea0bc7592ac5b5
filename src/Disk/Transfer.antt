-- ===== src/Disk/Transfer.antt =====
-- What `disk_read` of kern/disk.c reads, given what the controller's manual says of its registers.
use creeks_old.Base.{
  ℕ, zero, suc, ◌+◌, ◌-◌, ◌*◌, ◌/◌, ◌%◌, ◌^◌, ◌≤◌, ◌<◌, ◌≡◌, ◌∙◌, refl, ap, ap₂, inl, inr, true,
  Bool-cases, eq_of_==, ne_of_==, ltb, leb, ◌==◌, ◌&&◌, if◌then◌else◌, update, arith,
}
use creeks_old.Libc.{Bytes}
use creeks_old.Disk.{
  Controller, Port, bl_common, read_words, rounds, bl_read, quotient, remainder, blocks, transfer,
  copy_from, disk_read,
}

-- The sector of 28 bits that the registers name, the drive, and the number of sectors, where 0 stands
-- for 256.
abbrev pub sector : Controller → ℕ
sector c = c.low + 2 ^ 8 * c.middle + 2 ^ 16 * c.high + 2 ^ 24 * (c.device % 0x10)

abbrev pub selected : Controller → ℕ
selected c = c.device / 0x10 % 2

abbrev pub sectors : Controller → ℕ
sectors c = if c.count == 0 then 256 else c.count

-- The data port gives the bytes of the selected drive in order, two to a word, as far as the sectors
-- of the command reach.
pub record IsController (port : Port) (disk : ℕ → Bytes) : Type 0 where
  pub bytes : (drive a : ℕ) → disk drive a < 0x100
  pub words :
      (c : Controller) (idx : ℕ)
      → idx < 256 * sectors c
      → port c idx
        ≡ disk (selected c) (512 * sector c + 2 * idx)
          + 0x100 * disk (selected c) (512 * sector c + 2 * idx + 1)

-- The registers name the block, the drive and the count that were asked for.
pub bl_common_lem :
    (drive numblock count : ℕ)
    → drive < 2
    → numblock < 2 ^ 28
    → 0 < count
    → count ≤ 256
    → (sector (bl_common drive numblock count) ≡ numblock)
      × ((selected (bl_common drive numblock count) ≡ drive)
          × (sectors (bl_common drive numblock count) ≡ count))
unfolding bl_common
bl_common_lem drive numblock count d n c c' = (omega arith, (omega arith, ground arith))

-- The bytes from `i` on for a number of words, from `source`.
abbrev filled : (left idx : ℕ) → Bytes → Bytes → Bytes
filled left idx source buf i =
    if leb (2 * idx) i && ltb i (2 * (idx + left)) then source i else buf i

two_bytes :
    (source buf : Bytes) (left idx i : ℕ)
    → filled left
        (idx + 1)
        source
        (update (update buf (idx * 2) (source (2 * idx))) (idx * 2 + 1) (source (2 * idx + 1)))
        i
      ≡ filled (suc left) idx source buf i
two_bytes source buf left idx i =
    let e : idx * 2 ≡ 2 * idx = omega arith in
    rw e (elim (Bool-cases (i == 2 * idx)) [
      | inl low ↦ let at : i ≡ 2 * idx = eq_of_== i (2 * idx) low in rw at (ground arith)
      | inr other ↦ elim (Bool-cases (i == 2 * idx + 1)) [
        | inl high ↦
            let at : i ≡ 2 * idx + 1 = eq_of_== i (2 * idx + 1) high in rw at (ground arith)
        | inr apart ↦ ground (arith, ne_of_== i (2 * idx) other, ne_of_== i (2 * idx + 1) apart)
      ]
    ])

module _ (port : Port) (c : Controller) (source : Bytes) (small : (i : ℕ) → source i < 0x100) where
  word_step :
      (left idx : ℕ) (buf : Bytes) (i : ℕ)
      → port c idx ≡ source (2 * idx) + 0x100 * source (2 * idx + 1)
      → filled left
          (idx + 1)
          source
          (update
            (update buf (idx * 2) (port c idx % 0x100))
            (idx * 2 + 1)
            (port c idx / 2 ^ 8 % 0x100))
          i
        ≡ filled (suc left) idx source buf i
  word_step left idx buf i e =
      let l : port c idx % 0x100 ≡ source (2 * idx) =
        omega (arith, e, small (2 * idx), small (2 * idx + 1)) in
      let h : port c idx / 2 ^ 8 % 0x100 ≡ source (2 * idx + 1) =
        omega (arith, e, small (2 * idx), small (2 * idx + 1)) in
      rw (l, h) (two_bytes source buf left idx i)

  read_words-filled :
      (left idx : ℕ) (buf : Bytes) (i : ℕ)
      → ((k : ℕ) → k < idx + left → port c k ≡ source (2 * k) + 0x100 * source (2 * k + 1))
      → read_words port c left idx buf i ≡ filled left idx source buf i
  unfolding read_words
  read_words-filled zero idx buf i e = ground arith
  read_words-filled (suc left) idx buf i e =
      read_words-filled left (idx + 1) _ i (λ k h. e k (omega arith))
      ∙ word_step left idx buf i (e idx (omega arith))

assoc : (a b : ℕ) → a + b + 1 ≡ a + (b + 1)
assoc a b = omega arith

-- The sectors that `count` bytes from the offset on reach.
abbrev pub block_count : (offset count : ℕ) → ℕ
block_count offset count = (offset + count) / 512 - offset / 512 + 1

-- Where no `int` overflows, the code's numbers are these.
module _ (offset count : ℕ) (h : offset + count < 2 ^ 31) where
  pub quotient_lem : quotient offset ≡ offset / 512
  unfolding quotient
  quotient_lem = ground (arith, h)

  pub remainder_lem : remainder offset ≡ offset % 512
  unfolding remainder
  remainder_lem = ground (arith, h)

  pub blocks_lem : blocks offset count ≡ block_count offset count
  unfolding blocks quotient
  blocks_lem =
      let small : (offset + count) % 2 ^ 32 ≡ offset + count = omega (arith, h) in
      let in_range : ltb (offset + count) (2 ^ 31) ≡ true = ground (arith, h) in
      let first : ltb offset (2 ^ 31) ≡ true = ground (arith, h) in
      rw (small, in_range, first) (omega (arith, h))

pub rounds_lem : (count : ℕ) → count ≤ 256 → rounds count ≡ 256 * count
unfolding rounds
rounds_lem count h = ground (arith, h)

-- The buffer of a transfer holds the sectors asked for.
transfer_lem :
    (port : Port) (disk : ℕ → Bytes)
    → IsController port disk
    → (drive offset count i : ℕ) → drive < 2
    → offset + count < 2 ^ 31
    → block_count offset count ≤ 256
    → i < 512 * block_count offset count
    → transfer port drive offset count i ≡ disk drive (512 * (offset / 512) + i)
unfolding transfer bl_read
transfer_lem port disk controller drive offset count i d w n h =
    let c = bl_common drive (offset / 512) (block_count offset count) in
    let blocks = block_count offset count in
    let (s, (v, k)) =
      bl_common_lem drive (offset / 512) blocks d (omega (arith, w)) (omega arith) n in
    let source : ℕ → ℕ = λ a. disk drive (512 * (offset / 512) + a) in
    let words : (idx : ℕ)
        → idx < 0 + 256 * blocks
        → port c idx ≡ source (2 * idx) + 0x100 * source (2 * idx + 1) =
      λ idx l.
        controller.words c idx (omega (arith, k))
        ∙ (ap₂ (λ v' s'. disk v' (512 * s' + 2 * idx) + 0x100 * disk v' (512 * s' + 2 * idx + 1)) v
              s
            ∙ ap (λ q. disk drive (512 * (offset / 512) + 2 * idx) + 0x100 * disk drive q)
                (assoc (512 * (offset / 512)) (2 * idx))) in
    ap₂ (λ q b. read_words port (bl_common drive q b) (rounds b) 0 (λ i. 0) i)
      (quotient_lem offset count w) (blocks_lem offset count w)
    ∙ (ap (λ r. read_words port c r 0 (λ i. 0) i) (rounds_lem blocks n)
        ∙ (read_words-filled port c source (λ a. controller.bytes drive _) (256 * blocks) 0 (λ i. 0)
              i words
            ∙ ground (arith, h)))

-- A copy from a buffer of its own as one assignment.
pub copy_from_lem :
    (n dst : ℕ) (source : Bytes) (src : ℕ) (m : Bytes) (a : ℕ)
    → copy_from n dst source src m a
      ≡ (if leb dst a && ltb a (dst + n) then source (src + (a - dst)) else m a)
unfolding copy_from
copy_from_lem zero dst source src m a = ground arith
copy_from_lem (suc n) dst source src m a =
    copy_from_lem n (dst + 1) source (src + 1) (update m dst (source src)) a ∙ ground arith

-- With a controller that gives the bytes of a drive in order, disk_read of bytes of a drive 0 or 1 that
-- reach into at most 256 sectors, and whose offset and end are below 2^31, fills the buffer with exactly the bytes that stand from
-- the offset on, wherever in a sector it begins or ends, and writes no other byte of memory.
pub disk_read_lem :
    (port : Port) (disk : ℕ → Bytes)
    → IsController port disk
    → (drive offset buf count : ℕ) (m : Bytes) (a : ℕ) → drive < 2
    → offset + count < 2 ^ 31
    → block_count offset count ≤ 256
    → disk_read port drive offset buf count m a
      ≡ (if leb buf a && ltb a (buf + count) then disk drive (offset + (a - buf)) else m a)
unfolding disk_read
disk_read_lem port disk controller drive offset buf count m a d w n =
    ap (λ r. copy_from count buf (transfer port drive offset count) r m a)
      (remainder_lem offset count w)
    ∙ copy_from_lem count buf (transfer port drive offset count) (offset % 512) m a
    ∙ (elim (Bool-cases (leb buf a && ltb a (buf + count))) [
      | inl inside ↦
          let k : a - buf < count = ground (arith, inside) in
          let place : 512 * (offset / 512) + (offset % 512 + (a - buf)) ≡ offset + (a - buf) =
            omega arith in
          rw inside (
            transfer_lem port disk controller drive offset count (offset % 512 + (a - buf)) d w n
              (omega (arith, k))
            ∙ ap (disk drive) place)
      | inr outside ↦ rw outside refl
    ])
