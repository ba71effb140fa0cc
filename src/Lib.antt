-- ===== src/Lib.antt =====
-- Verification of the kernel's lists, memory management, scheduler, files, interrupts, program loader
-- and printing (kernel/).
--
-- The program is a small Unix-like kernel for x86. Its core rests on a few parts, each of which is a
-- module here, named for it:
--   Bitmap     kernel/utils/bitmap.c: the bits of the frame allocator, in 32-bit words.
--   Physical   kernel/memory/physical.c: page frames handed out by the bitmap and a counter; it is
--              called by the heap (kernel/utils/stdlib.c) and by paging (kernel/memory/virtual.c).
--   Paging     kernel/memory/virtual.c: the page directory, its tables and the frames they take from
--              Physical; the heap and the processes map their pages with it.
--   Heap       kernel/utils/stdlib.c: the kernel's malloc and free, a chain of blocks on the pages that
--              it takes from Physical and maps with Paging.
--   DList      kernel/utils/dlist.c, dlist.h: circular lists, on which the priority lists of the
--              scheduler, the memory areas of a process and the directory entries stand.
--   Plist      kernel/utils/plist.c, plist.h: lists of nodes by priority, made of two rings of DList;
--              the scheduler keeps its threads in them.
--   Mmap       kernel/memory/mmap.c: the memory areas of a process, a list of DList by address; it
--              takes frames from Physical and maps them with Paging.
--   Ext2       kernel/filesystem/ext2.c, ext2.h: the place of an inode, reads of a file and lookups
--              in a directory; the virtual file system calls them.
--   Strings    kernel/utils/string.c: memcpy and memset; strcmp stands with Ext2.
--   Elf32      kernel/task/elf32.c, elf32.h: a program file verified and loaded; its segments are
--              mapped with Mmap and copied with Strings.
--   Stdio      kernel/utils/stdio.c, stdio.h: numbers and whole formats printed into a buffer
--              (vsnprintf); the log and the drivers print with it.
--   Scheduler  kernel/task/scheduler.c, scheduler.h: the lock, the queue of threads in a list of Plist,
--              the switch to another thread, the timer handler, and processes made, forked and ended,
--              whose areas and pages are those of Mmap and Paging.
--   Vfs        kernel/filesystem/virtual.c, virtual.h: paths, directory entries, mounts and the
--              descriptors of a process; it compares names with strcmp and calls the operations of a
--              file system, such as those of Ext2, through the pointers of an inode.
--   Interrupts kernel/arch/x86/kernel/irq.c, isr.c, pic.c: the handlers of interrupts, of which that of
--              the scheduler is one, and the controller.
--   Descriptors kernel/arch/x86/boot/gdt.c, idt.c and kernel/task/tss.c: the tables of the processor,
--              whose vectors lead to the handlers of Interrupts.
--   Vga        kernel/drivers/vga.c, vga.h: text on the screen.
--   Pci        kernel/drivers/pci.c, pci.h: the scan of the bus for devices.
-- Base holds what they share: numbers and tests, bits of a word, least-element searches, counting,
-- and lists of addresses without repetition. Tests holds runs of the definitions and each theorem
-- at a concrete input.
--
-- Correspondence. A definition has the name of its function without the prefix of the file
-- (bitmap_set is Bitmap.set, phys_mm_block_alloc is Physical.block_alloc, virt_mm_map_addr is
-- Paging.map_addr, dlist_add is DList.add, plist_add is Plist.add); a macro or constant is spelled
-- in lower case. Static variables and structs are records, and a function that writes them returns
-- the new record, beside its result where it has one. Pointers are numbers and NULL is 0. Arithmetic
-- of uint32_t is on natural numbers with `% 2 ^ 32` written out; a subtraction adds 2 ^ 32 first
-- where it could go below 0.
--
-- Memory. A bitmap is a function on all word indices, since the code has no bound of its own. The
-- list code works on a memory that has a `struct dlist_head` at every address; that the accesses
-- stay on nodes of the lists is part of what the theorems about rings say, since a ring names its
-- nodes and other rings are left as they were.
--
-- The heap keeps the header of the block at each address; what stands in the blocks is left out.
-- The tables of the page directory are read and written through the window at the end of the address
-- space, as the code does. The table of an entry is kept by the index of the entry; that its frame is
-- one of its own is what Paging/Table says of the entry and the allocator.
--
-- Mmap. The fields of an area are those of its struct; the block that calloc gives for a new one is an
-- argument, and so are the files of the process and their mmap operation.
--
-- Ext2. The disk is a parameter, the bytes of each block; this is what virt_fs_bread reads with the
-- driver. A file or directory is given by the block numbers and the size in its inode.
--
-- Elf32. The file stands in one memory with the segments of the process. What stands in the frames that
-- a mapping puts behind the pages of its area is a parameter. The loop over the program
-- headers takes as many rounds as the walks of Mmap.
--
-- Stdio. A format and a text are the lists of their bytes before the closing zero, the arguments are
-- the words on the stack, and the strings they point to a parameter. What `%n` stores is collected
-- and not written into memory. Field, precision and the position in the buffer are counted without
-- bounds, where the code has int and pointers that wrap round; Stdio/Fits says where both agree.
--
-- Scheduler. A switch of threads is written as the thread that goes on sees it: the new current thread,
-- its process, the stack of the task segment, and the sti of sched_switch; a thread that goes on, or
-- that starts in sched_thread_entry, first gives the lock back. The wait for an interrupt in
-- sched_schedule tries again with the queue as it is, and a state in which it waits is a step of its
-- own in Scheduler/Reach. The blocks that calloc gives for a new process are arguments, as are the
-- pages of its directory and the entries in user mode. Saved registers are left out, and so is an
-- interrupt that comes in while a call still runs, as it can behind that sti.
--
-- Vfs. The lists of entries and of mounts are lists of addresses in their order. The functions behind
-- the pointers of a file system are a record of functions, which may change the whole state. A name in
-- a path that does not fit into its array of 256 bytes is a missing result.
--
-- Interrupts, Descriptors, Vga. What is written to ports is the list of the writes in order, and what
-- is read from them is an argument. A handler is the address of its function. Pci takes what its value
-- port gives for each address as a parameter.
--
-- Loops are recursions on the rounds that are left, so they end. Loops that follow pointers take
-- fuel: dlist_foreach is given one more than the number of entries, and plist_add the number of
-- different priorities in the list. virt_mm_addr_range_unmap takes more than the number of pages,
-- since its counter wraps round; malloc is given more than the number of blocks. vsnprintf takes
-- more than the length of its format; the loop over the digits has 64 rounds, one for each bit. The
-- loops of mmap.c take more than the number of areas, and mmap_brk more than the number of new pages.
-- A read of twelve blocks takes thirteen rounds, and a lookup more than the entries of the block.
-- virt_fs_path_find takes more than the length of the path, and sched_process_clone_mm more than the
-- number of areas. pci_bus_scan calls itself for the bus behind a bridge; 256 calls deep is enough, since
-- a bus has a number of eight bits.
--
-- Not modelled: log output, the assembly parts, and the loading of the tables into the processor; the
-- boot loader's memory map is a list of entries, and the pointer that walks over it is left out.
-- sys_panic stops the kernel, which is a missing result. calloc and malloc_align, virt_mm_addr_create
-- and virt_mm_fork_dir, elf32_unload, sched_process_execve and the entries of a thread into user mode,
-- virt_fs_bread, the mount of ext2 and the table of system calls are left out. The drivers other than
-- the screen and the bus wait for and move data on ports, and the boot code calls the other parts. The libraries
-- of programs (libs/) are mostly wrappers of system calls.
pub mod Base
pub mod Bitmap
pub mod DList
pub mod Descriptors
pub mod Elf32
pub mod Ext2
pub mod Heap
pub mod Interrupts
pub mod Mmap
pub mod Paging
pub mod Pci
pub mod Physical
pub mod Plist
pub mod Scheduler
pub mod Stdio
pub mod Strings
pub mod Tests
pub mod Vfs
pub mod Vga
