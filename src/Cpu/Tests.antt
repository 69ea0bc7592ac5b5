-- ===== src/Cpu/Tests.antt =====
-- Runs of the descriptor tables, and their theorems at concrete values.
use creeks_old.Base.{ℕ, ◌≡◌, refl}
use creeks_old.Cpu.Gdt.{GdtState, init_gdt_desc, descriptor_word}
use creeks_old.Cpu.Idt.{Handlers, IdtDesc}

-- The user's code segment.
ucode : descriptor_word (init_gdt_desc 0 0xFFFFF 0xFF 0x0D) ≡ 0x00DFFF000000FFFF
unfolding init_gdt_desc descriptor_word
ucode = refl

abbrev blank : GdtState
blank = record {
  default_tss = record { debug_flag = 0; io_map = 0; esp0 = 0; ss0 = 0 };
  kgdt = λ i. record {
    lim0_15 = 0;
    base0_15 = 0;
    base16_23 = 0;
    acces = 0;
    lim16_19 = 0;
    other = 0;
    base24_31 = 0;
  };
  kgdtr = record { limite = 0; base = 0 };
}

abbrev handlers : Handlers
handlers = record {
  default_int = 0x100000;
  exc_gp = 0x100010;
  exc_pf = 0x100020;
  irq_0 = 0x100030;
  irq_1 = 0x100040;
  syscalls = 0x100050;
}

abbrev no_gates : ℕ → IdtDesc
no_gates i = record { offset0_15 = 0; select = 0; kind = 0; offset16_31 = 0 }
