-- ===== src/Cpu/Idt.antt =====
-- Interrupt gates, kern/idt.c and kern/idt.h: `init_idt_desc` and the table that `init_idt` fills.
-- The addresses of the assembly handlers are parameters.
use creeks_old.Base.{
  ℕ, zero, suc, ◌+◌, ◌*◌, ◌/◌, ◌%◌, ◌^◌, ◌<◌, ◌≡◌, refl, arith, update, ◌==◌, ltb, leb, ◌&&◌,
  if◌then◌else◌, ◌∙◌,
}
use creeks_old.Base.Bits.Words.{bit_and-ones, bit_and-high}
use creeks_old.Cpu.Gdt.{low_half}
use Prim.Native.Nat.{bit_and}

-- `INTGATE` and `TRAPGATE`
abbrev pub int_gate : ℕ
int_gate = 0x8E00

abbrev pub trap_gate : ℕ
trap_gate = 0xEF00

-- `struct idtdesc`; its `type` is `kind` here.
pub record IdtDesc : Type 0 where
  pub offset0_15 : ℕ
  pub select : ℕ
  pub kind : ℕ
  pub offset16_31 : ℕ

unfoldable pub init_idt_desc : (select offset kind : ℕ) → IdtDesc
init_idt_desc select offset kind = record {
  offset0_15 = bit_and offset 0xffff;
  select = select;
  kind = kind;
  offset16_31 = bit_and offset 0xffff0000 / 2 ^ 16;
}

-- The address that the processor jumps to.
pub gate_offset : IdtDesc → ℕ
gate_offset d = d.offset0_15 + d.offset16_31 * 2 ^ 16

high_half : (a : ℕ) → bit_and a 0xffff0000 ≡ a / 2 ^ 16 % 2 ^ 16 * 2 ^ 16
high_half a = omega (arith, bit_and-high 16 a 0xffff, bit_and-ones 16 (a / 2 ^ 16) 0xffff refl)

-- A gate made for a 32-bit handler address jumps to exactly that address.
pub gate_offset-init_idt_desc :
    (select offset kind : ℕ)
    → offset < 2 ^ 32
    → gate_offset (init_idt_desc select offset kind) ≡ offset
unfolding gate_offset init_idt_desc
gate_offset-init_idt_desc select offset kind h = omega (arith, low_half offset, high_half offset)

-- The addresses of the handlers of kern/asm/int.asm.
pub record Handlers : Type 0 where
  pub default_int : ℕ
  pub exc_gp : ℕ
  pub exc_pf : ℕ
  pub irq_0 : ℕ
  pub irq_1 : ℕ
  pub syscalls : ℕ

-- `IDTSIZE`
abbrev pub idt_size : ℕ
idt_size = 0xFF

-- `for (i = 0; i < IDTSIZE; i++)`, with the rounds left.
default_gates : ℕ → ℕ → Handlers → (ℕ → IdtDesc) → ℕ → IdtDesc
default_gates zero i h kidt = kidt
default_gates (suc n) i h kidt =
    default_gates n (i + 1) h (update kidt i (init_idt_desc 0x08 h.default_int int_gate))

-- The gates that replace the default one.
special_gates : Handlers → (ℕ → IdtDesc) → ℕ → IdtDesc
special_gates h kidt = update k4 48 (init_idt_desc 0x08 h.syscalls trap_gate)
  where
    k1 : ℕ → IdtDesc
    k1 = update kidt 13 (init_idt_desc 0x08 h.exc_gp int_gate)

    k2 : ℕ → IdtDesc
    k2 = update k1 14 (init_idt_desc 0x08 h.exc_pf int_gate)

    k3 : ℕ → IdtDesc
    k3 = update k2 32 (init_idt_desc 0x08 h.irq_0 int_gate)

    k4 : ℕ → IdtDesc
    k4 = update k3 33 (init_idt_desc 0x08 h.irq_1 int_gate)

pub init_idt : Handlers → (ℕ → IdtDesc) → ℕ → IdtDesc
init_idt h kidt = special_gates h (default_gates idt_size 0 h kidt)

-- The handler of each vector.
abbrev pub handler : Handlers → ℕ → ℕ
handler h v =
    if v == 13
    then h.exc_gp
    else if v == 14
    then h.exc_pf
    else if v == 32
    then h.irq_0
    else if v == 33
    then h.irq_1
    else if v == 48
    then h.syscalls
    else h.default_int

default_gates_lem :
    (n i : ℕ) (h : Handlers) (kidt : ℕ → IdtDesc) (v : ℕ)
    → default_gates n i h kidt v
      ≡ (if leb i v && ltb v (i + n) then init_idt_desc 0x08 h.default_int int_gate else kidt v)
unfolding default_gates
default_gates_lem zero i h kidt v = ground arith
default_gates_lem (suc n) i h kidt v = ground (
  arith,
  default_gates_lem n (i + 1) h (update kidt i (init_idt_desc 0x08 h.default_int int_gate)) v,
)

default_all :
    (h : Handlers) (kidt : ℕ → IdtDesc) (v : ℕ)
    → v < idt_size
    → default_gates idt_size 0 h kidt v ≡ init_idt_desc 0x08 h.default_int int_gate
default_all h kidt v lt = ground (arith, default_gates_lem idt_size 0 h kidt v)

special_gates_lem :
    (h : Handlers) (kidt : ℕ → IdtDesc) (v : ℕ)
    → special_gates h kidt v ≡ (
        if v == 48
        then init_idt_desc 0x08 h.syscalls trap_gate
        else if v == 33
        then init_idt_desc 0x08 h.irq_1 int_gate
        else if v == 32
        then init_idt_desc 0x08 h.irq_0 int_gate
        else if v == 14
        then init_idt_desc 0x08 h.exc_pf int_gate
        else if v == 13
        then init_idt_desc 0x08 h.exc_gp int_gate
        else kidt v)
unfolding special_gates
special_gates_lem h kidt v = refl

collect :
    (h : Handlers) (v : ℕ)
    → (if v == 48
        then init_idt_desc 0x08 h.syscalls trap_gate
        else if v == 33
        then init_idt_desc 0x08 h.irq_1 int_gate
        else if v == 32
        then init_idt_desc 0x08 h.irq_0 int_gate
        else if v == 14
        then init_idt_desc 0x08 h.exc_pf int_gate
        else if v == 13
        then init_idt_desc 0x08 h.exc_gp int_gate
        else init_idt_desc 0x08 h.default_int int_gate)
      ≡ init_idt_desc 0x08 (handler h v) (if v == 48 then trap_gate else int_gate)
collect h v = ground arith

-- After `init_idt`, whatever the table held before, each of the 255 vectors has a gate in the
-- kernel's code segment to the handler meant for it, and only the system call gate, 48, is a trap
-- gate that user code may call.
pub init_idt_gates :
    (h : Handlers) (kidt : ℕ → IdtDesc) (v : ℕ)
    → v < idt_size
    → init_idt h kidt v ≡ init_idt_desc 0x08 (handler h v) (if v == 48 then trap_gate else int_gate)
unfolding init_idt
init_idt_gates h kidt v lt =
    special_gates_lem h (default_gates idt_size 0 h kidt) v
    ∙ rw (default_all h kidt v lt) (collect h v)
