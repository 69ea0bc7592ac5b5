-- ===== src/Cpu.antt =====
-- The descriptor tables of the processor: kern/gdt.c and kern/idt.c.
pub mod Gdt
pub mod Idt
mod Tests
