-- ===== src/Lib.antt =====
-- The kernel of a small 32-bit x86 operating system.
--
-- kern/gdt.c, kern/idt.c (Cpu): the descriptor tables. `init_gdt_desc`, `init_gdt`, `init_idt_desc` and
-- `init_idt` fill records and tables; what the processor reads from a descriptor is defined beside them.
--
-- kern/mm.c, kern/mm.h (Mm.Frames, Mm.Paging): the bitmap of page frames is a function from the index
-- of a byte to the byte, `get_page_frame` runs its two loops on the rounds that are left. The page
-- tables are the words at the top of the address space where the last directory entry shows them, by
-- their virtual address; `pd0_add_page`, `pd_remove_page` and `get_p_addr` read and write those words.
--
-- kern/kmalloc.c (Mm.Kmalloc): the headers of the kernel heap are functions from an address to size and
-- mark, in one state with the bitmap, the page tables and `kern_heap` (Mm.State), since `ksbrk` changes
-- all of them. The loops of `kmalloc` and `kfree` run on fuel, and one round more than there are chunks
-- is enough. The specification is a list of chunks with first fit, and with merging for `kfree`.
--
-- kern/signal.c, kern/signal.h, kern/syscalls/sys_sigreturn.c (Signal): masks are 32-bit words, user
-- memory is a function from addresses to words. The loop of `dequeue_signal` runs on 32 rounds.
--
-- kern/process.h (Process), kern/schedule.c and the choice of a number in kern/process.c (Schedule):
-- the table of processes is a function from the index to the process; `schedule` and `switch_to_task`
-- return the new kernel state with the frame that the processor is resumed from. Leaving the stack to
-- `do_switch` is not modelled.
--
-- kern/lib.c and usr/libc/libc.c (Libc): memory is a function from addresses to bytes; loops that look
-- for the end of a string run on fuel, and one round more than the string has bytes is enough.
--
-- kern/screen.c (Screen), kern/console.c (Console): video memory is a function from addresses to bytes.
-- `putc_console` works on consoles and terminals by number and calls `putcar`;
-- kern/syscalls/sys_console_read.c is two functions, what it does before it waits and behind.
--
-- kern/syscalls (Descriptors, Lifecycle): the chain of open files is a list; lists of children and of
-- pages are lists. sys_open begins behind `path_to_file`; sizes of inodes and buffers come from functions
-- that stand for kern/ext2.c. A null pointer is a result of its own.
--
-- Words: `&` and `|` are the native bitwise operations; `x | 1 << k` and its like are recursions on k
-- (Base.Bits), checked against the native ones over all bytes. Pointer arithmetic inside the heap is
-- not reduced modulo 2^32. `asm("hlt")` after a panic ends the run. Arrays (p_list, sigfn, inb) are
-- functions of the index, and the theorems are about indices that the arrays have; a heap page without a
-- frame makes the run `unbacked`.
--
-- kern/mm.c's list of free pages (Mm.Areas): a list of areas; what a change of it asks of the kernel heap
-- is a value that `get_page_from_heap` and `release_page_from_heap` pass to `kmalloc` and `kfree`.
--
-- kern/mm.c's page directories and the page fault handler of kern/interrupt.c (Mm.Directories): the words
-- of a new directory are a function of the index; a new table shows at its place among the tables' words.
--
-- kern/syscalls/syscalls.c (Paths): sys_chdir and sys_pwd, on the names and parents of files.
--
-- usr/libc/malloc.c (Malloc): like the kernel heap, over `sys_sbrk`. kern/elf.c (Elf): one memory for the
-- file and the process, where numbers are read lowest byte first.
--
-- kern/list.h (Linked): a store from addresses to the two fields; a list is given by the chain that leads
-- from its head through its members and back. The other components use lists directly.
--
-- kern/disk.c (Disk): the controller's registers are a record, and the words of its data port are a
-- function of the registers and of the number of the word. kern/ext2.c, kern/ext2.h (Ext2): the structures
-- are values that are taken from the bytes that `disk_read` gives; the four parts of `ext2_read_file` are
-- its loops over the entries of a block, nested. Offsets and counts are 32-bit words, an int's; the
-- theorems are about transfers that end below 2^31. The blocks of a file are those that the bytes of
-- the disk name (Ext2.Named).
--
-- kern/file.c (Files): the files of the cache by number, on a record of what is used of kern/ext2.c,
-- which Ext2 fills. `path_to_file` runs on fuel, and the bytes of the path are enough; the entries of a
-- directory are read on fuel, more than there are entries. The abstract view is the lists of entries of
-- the directories by inode, which `HasListing` asks of the bytes on the disk: records that fill the
-- directory, none of them unused, and no sockets or block devices, which the code takes for directories.
--
-- kern/process.c (Tasks), kern/syscalls/sys_exec.c (Exec): `load_task` on one memory that the kernel and
-- the new process share; the address of the page directory and of the kernel's stack are arguments.
-- Strings and pointers are put on the user's stack byte by byte. `sys_exec` joins the lookup of the path,
-- the inode that is read from the disk, and `load_task`.
--
-- kern/interrupt.c, kern/kbd.h (Interrupts): static variables of the handlers are records; what lies behind
-- the keyboard's table is an argument. usr/shell.c (Shell): a pointer into the command line is the rest of
-- the line; the loops run on one round more than the line has bytes, and what strncpy copies is an
-- argument, since its expression has no defined order.
--
-- Not modelled: add_file and ext2_create_inode, lists of a process's pages, the loops of kern/list.h,
-- kern/printk.c, the dispatch of system calls, init_mm, the other programs under usr; boot code, port input and output, the interrupt controller, video modes and assembly, which only drive the
-- hardware.
pub mod Base
pub mod Mm
pub mod Cpu
pub mod Libc
pub mod Process
pub mod Descriptors
pub mod Lifecycle
pub mod Malloc
pub mod Elf
pub mod Paths
pub mod Linked
pub mod Disk
pub mod Ext2
pub mod Files
pub mod Tasks
pub mod Exec
pub mod Interrupts
pub mod Shell
pub mod Screen
pub mod Console
pub mod Signal
pub mod Schedule
