-- ===== src/Cpu/Gdt.antt =====
-- Segment descriptors, kern/gdt.c and kern/gdt.h: `init_gdt_desc` and the table that `init_gdt`
-- fills. Loading the table into the processor is not modelled.
use creeks_old.Base.{ℕ, ◌+◌, ◌*◌, ◌/◌, ◌%◌, ◌^◌, ◌<◌, ◌≡◌, refl, arith, update, List, [], ◌∷◌, All}
use creeks_old.Base.Bits.Words.{bit_and-ones, bit_and-high}
use Prim.Native.Nat.{bit_and}

-- `struct gdtdesc`
pub record GdtDesc : Type 0 where
  pub lim0_15 : ℕ
  pub base0_15 : ℕ
  pub base16_23 : ℕ
  pub acces : ℕ
  pub lim16_19 : ℕ
  pub other : ℕ
  pub base24_31 : ℕ

unfoldable pub init_gdt_desc : (base limite acces other : ℕ) → GdtDesc
init_gdt_desc base limite acces other = record {
  lim0_15 = bit_and limite 0xffff;
  base0_15 = bit_and base 0xffff;
  base16_23 = bit_and base 0xff0000 / 2 ^ 16;
  acces = acces;
  lim16_19 = bit_and limite 0xf0000 / 2 ^ 16;
  other = bit_and other 0xf;
  base24_31 = bit_and base 0xff000000 / 2 ^ 24;
}

-- What the processor reads from a descriptor.
pub segment_base : GdtDesc → ℕ
segment_base d = d.base0_15 + d.base16_23 * 2 ^ 16 + d.base24_31 * 2 ^ 24

pub segment_limit : GdtDesc → ℕ
segment_limit d = d.lim0_15 + d.lim16_19 * 2 ^ 16

-- The eight bytes of the packed descriptor, as one little-endian number.
unfoldable pub descriptor_word : GdtDesc → ℕ
descriptor_word d =
    d.lim0_15
    + d.base0_15 * 2 ^ 16
    + d.base16_23 * 2 ^ 32
    + d.acces * 2 ^ 40
    + d.lim16_19 * 2 ^ 48
    + d.other * 2 ^ 52
    + d.base24_31 * 2 ^ 56

-- The masks of `init_gdt_desc` and `init_idt_desc`, as quotients and remainders.
pub low_half : (a : ℕ) → bit_and a 0xffff ≡ a % 2 ^ 16
low_half a = bit_and-ones 16 a 0xffff refl

pub low_nibble : (a : ℕ) → bit_and a 0xf ≡ a % 2 ^ 4
low_nibble a = bit_and-ones 4 a 0xf refl

third_byte : (a : ℕ) → bit_and a 0xff0000 ≡ a / 2 ^ 16 % 2 ^ 8 * 2 ^ 16
third_byte a = omega (arith, bit_and-high 16 a 0xff, bit_and-ones 8 (a / 2 ^ 16) 0xff refl)

high_nibble : (a : ℕ) → bit_and a 0xf0000 ≡ a / 2 ^ 16 % 2 ^ 4 * 2 ^ 16
high_nibble a = omega (arith, bit_and-high 16 a 0xf, bit_and-ones 4 (a / 2 ^ 16) 0xf refl)

fourth_byte : (a : ℕ) → bit_and a 0xff000000 ≡ a / 2 ^ 24 % 2 ^ 8 * 2 ^ 24
fourth_byte a = omega (arith, bit_and-high 24 a 0xff, bit_and-ones 8 (a / 2 ^ 24) 0xff refl)

-- A descriptor made from a 32-bit base and a 20-bit limit stands for exactly that segment, its
-- access byte is kept, its flags are the low four bits, and every field fits its width.
pub init_gdt_desc_lem :
    (base limite acces other : ℕ)
    → base < 2 ^ 32
    → limite < 2 ^ 20
    → acces < 2 ^ 8
    → (segment_base (init_gdt_desc base limite acces other) ≡ base)
      × (segment_limit (init_gdt_desc base limite acces other) ≡ limite)
      × ((init_gdt_desc base limite acces other).acces ≡ acces)
      × ((init_gdt_desc base limite acces other).other ≡ other % 16)
      × (descriptor_word (init_gdt_desc base limite acces other) < 2 ^ 64)
unfolding init_gdt_desc segment_base segment_limit descriptor_word
init_gdt_desc_lem base limite acces other hb hl ha = omega (
  arith,
  low_half base,
  low_half limite,
  low_nibble other,
  third_byte base,
  fourth_byte base,
  high_nibble limite,
)

-- `struct tss`, the fields that the kernel writes.
pub record Tss : Type 0 where
  pub debug_flag : ℕ
  pub io_map : ℕ
  pub esp0 : ℕ
  pub ss0 : ℕ

-- `struct gdtr`
pub record Gdtr : Type 0 where
  pub limite : ℕ
  pub base : ℕ

-- What `init_gdt` leaves behind: `default_tss`, `kgdt`, `kgdtr`, and the copy at `GDTBASE`.
pub record GdtState : Type 0 where
  pub default_tss : Tss
  pub kgdt : ℕ → GdtDesc
  pub kgdtr : Gdtr

-- `GDTSIZE`
abbrev pub gdt_size : ℕ
gdt_size = 0xFF

-- `GDTBASE`
abbrev pub gdt_base : ℕ
gdt_base = 0x800

-- `tss_addr` is `(u32) & default_tss`.
unfoldable pub init_gdt : (tss_addr : ℕ) → GdtState → GdtState
unfolding init_gdt_desc
init_gdt tss_addr s = record {
  default_tss = record { debug_flag = 0x00; io_map = 0x00; esp0 = 0x1FFF0; ss0 = 0x18 };
  kgdt = update k6 7 (init_gdt_desc tss_addr 0x67 0xE9 0x00);
  kgdtr = record { limite = gdt_size * 8; base = gdt_base };
}
  where
    k0 : ℕ → GdtDesc
    k0 = update s.kgdt 0 (init_gdt_desc 0x0 0x0 0x0 0x0)

    k1 : ℕ → GdtDesc
    k1 = update k0 1 (init_gdt_desc 0x0 0xFFFFF 0x9B 0x0D)

    k2 : ℕ → GdtDesc
    k2 = update k1 2 (init_gdt_desc 0x0 0xFFFFF 0x93 0x0D)

    k3 : ℕ → GdtDesc
    k3 = update k2 3 (init_gdt_desc 0x0 0x0 0x97 0x0D)

    k4 : ℕ → GdtDesc
    k4 = update k3 4 (init_gdt_desc 0x0 0xFFFFF 0xFF 0x0D)

    k5 : ℕ → GdtDesc
    k5 = update k4 5 (init_gdt_desc 0x0 0xFFFFF 0xF3 0x0D)

    k6 : ℕ → GdtDesc
    k6 = update k5 6 (init_gdt_desc 0x0 0x0 0xF7 0x0D)

-- The privilege level and the presence bit of an access byte.
pub privilege : GdtDesc → ℕ
privilege d = d.acces / 2 ^ 5 % 4

pub present : GdtDesc → ℕ
present d = d.acces / 2 ^ 7

-- The index and the requested privilege level of a selector.
abbrev pub selector_index : ℕ → ℕ
selector_index sel = sel / 8

abbrev pub selector_rpl : ℕ → ℕ
selector_rpl sel = sel % 4

-- The selectors that the kernel loads: code, data and stack, and those of a user task.
abbrev pub used_selectors : List ℕ
used_selectors = 0x08 ∷ 0x10 ∷ 0x18 ∷ 0x23 ∷ 0x2B ∷ 0x33 ∷ []

-- After `init_gdt`, whatever the table held before, each selector that the kernel loads (0x08,
-- 0x10, 0x18, and 0x23, 0x2B, 0x33 for a user task) names a present segment from base 0 whose
-- privilege level is the selector's own, and the task register's 0x38 names a segment of 0x68 bytes
-- at `default_tss`.
pub init_gdt_selectors :
    (tss_addr : ℕ) (s : GdtState)
    → tss_addr < 2 ^ 32
    → All
        (λ sel.
          (present ((init_gdt tss_addr s).kgdt (selector_index sel)) ≡ 1)
          × (privilege ((init_gdt tss_addr s).kgdt (selector_index sel)) ≡ selector_rpl sel)
          × (segment_base ((init_gdt tss_addr s).kgdt (selector_index sel)) ≡ 0))
        used_selectors
      × (segment_base ((init_gdt tss_addr s).kgdt (selector_index 0x38)) ≡ tss_addr)
      × (segment_limit ((init_gdt tss_addr s).kgdt (selector_index 0x38)) + 1 ≡ 0x68)
unfolding init_gdt present privilege segment_base segment_limit
init_gdt_selectors tss_addr s h = (
  (
    (refl, refl, refl),
    (
      (refl, refl, refl),
      ((refl, refl, refl), ((refl, refl, refl), ((refl, refl, refl), ((refl, refl, refl), tt)))),
    ),
  ),
  omega (arith, low_half tss_addr, third_byte tss_addr, fourth_byte tss_addr),
  refl,
)
