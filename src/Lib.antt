-- ===== src/Lib.antt =====
-- A model of ShawnOS, a kernel for the i386.
--
-- The memory subsystem. The boot loader leaves a memory map and section headers, from which
-- kernel/arch/i386/mem.c works out which page frames are in use (MemoryMap, Frames); until the
-- heap is there, `kmalloc` is a placement allocator (EarlyHeap). kernel/mm/asa.c hands out pages
-- of the kernel's address space (Asa), kernel/mm/paging.c calls the installed paging system
-- (Paging), which kernel/arch/i386/paging.c is, with the page directory and page tables of the
-- processor (Mmu), and kernel/mm/heap.c cuts blocks of mapped pages into sections (Heap: one block in
-- Heap/Sections, new blocks in Heap/Build and Heap/Expand, the whole heap in Heap/Allocate,
-- Heap/Apart and Heap/Free, the heap behind `kmalloc` in Heap/Kalloc,
-- over a paging system that keeps the laws of Heap/Mapping, which Heap/I386 shows of the i386 one
-- for a range of pages of which the page tables are present). Frames,
-- Asa and Heap all keep their state in the bitsets of kernel/include/kernel/bitset.h (Bitset, over
-- the bit laws of Bits). Kernel has the words, result codes and constants of
-- kernel/include/kernel/kernel.h. Boot is the part of `kernel_early` in kernel/kernel/kernel.c
-- that sets these up; Boot/Early is all of it, with the tables and drivers, and Boot/Messages what
-- it prints.
--
-- Devices and the rest. kernel/arch/i386/descriptors has the segment descriptors (Gdt) and the
-- interrupt table. An exception goes to kernel/arch/i386/isr.c (Isr), and an interrupt through the
-- gates and handlers of kernel/arch/i386/irq.c (Irq) to the timer of kernel/drivers/pc/pit.c (Pit)
-- or the keyboard of kernel/drivers/pc/pckbd.c (Pckbd). What the kernel prints is kept by
-- kernel/kernel/kernel_stdio.c (Stdio) until the timer calls kernel/kernel/kernel_terminal.c
-- (Terminal), which shows it by way of kernel/drivers/vga/textmode.c (Textmode);
-- libsc/stdio/printf.c (Printf) shows its text at once. libsc/string/memmove.c moves bytes in
-- memory (Memory), and libsc/stdlib/itoa.c and the string functions of libsc/string work on texts in
-- it (Strings). kernel/fs/vfs.c (Vfs) passes calls on to filesystem drivers, and
-- kernel/mm/alloc.c (Kalloc) to the installed allocator. kernel/drivers/pci/pci.c (Pci) looks for
-- devices, and kernel/kernel/ordered_array.c (OrderedArray) is a container on its own.
--
-- Global variables and structures are records that the functions take and return. A 32-bit value
-- is a native number, and each operation on it that can wrap is written with its wrap-around
-- (`add32`, `sub32`, `mul32`). `Outcome` is what a call does: a failed `ASSERT`, a `PANIC` and a
-- read behind the end of the table of PCI classes, which has no value, are
-- `abort`. A loop that may not end takes fuel: the walk over the memory map one round for each of
-- its bytes, the marking of frames one for each frame and one more, the marking of sections one
-- for each section and one more, and theorems show that these are enough. The growth of a block
-- takes two rounds more than the pages of the request. The walk of `kheap_malloc` starts again each
-- time the heap has grown; how often is an argument, and two rounds are enough where a new block
-- has room for the request, and one round more than the address space has pages where it has
-- none. `printk_debug` is modelled in the start of the kernel, and left out elsewhere.
--
-- Bytes sent to ports are kept in a list, in the order or, in Textmode, against the order in which
-- they are sent. Filesystem drivers, the PCI bus, handlers and the routines of the timer are
-- parameters.
--
-- In Mmu the physical memory is a function, and a pointer to a page leads where the page tables
-- send it at that moment. The identity map takes a round for each of its 380 pages and one more.
-- The loop of `vprintf` takes a round for each character of the format and one more, and its digit
-- loops one for each bit of the number; a conversion without an argument of its type has a result
-- of its own.
--
-- Threads that share the reference count of an inode are a step relation over the accesses to
-- memory (Vfs/Lock), and a wait for the timer runs over the list of interrupts that come
-- (Pit/Wait).
--
-- Not modelled: assembly, cached translations, the task state segment, which nothing uses, and the
-- test loop of `kernel_main`, which allocates pages until the kernel stops.
pub mod Prelude
pub mod Bits
pub mod Memory
pub mod Kernel
pub mod Bitset
pub mod Asa
pub mod Frames
pub mod MemoryMap
pub mod EarlyHeap
pub mod Paging
pub mod Heap
pub mod OrderedArray
pub mod Textmode
pub mod Printf
pub mod Stdio
pub mod Strings
pub mod Pit
pub mod Terminal
pub mod Vfs
pub mod Pckbd
pub mod Irq
pub mod Isr
pub mod Gdt
pub mod Mmu
pub mod Kalloc
pub mod Pci
pub mod Boot
