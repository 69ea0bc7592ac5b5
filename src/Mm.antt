-- ===== src/Mm.antt =====
-- Memory management: kern/mm.c and kern/mm.h, and the kernel's heap, kern/kmalloc.c.
pub mod Frames
pub mod Paging
pub mod State
pub mod Kmalloc
pub mod Areas
pub mod Directories
