-- ===== src/Lib.antt =====
-- LySystemOS, a 64-bit kernel: its memory, its scheduler and its file system.
--
-- The parts of the program. At start-up the frame allocator (kernel/mem/pmm.c) learns from the boot
-- information which frames of 4096 bytes are free, paging maps the frames behind the kernel heap
-- (kernel/mem/heap.c), and the scheduler (kernel/sched/task.c) sets up its table of tasks. A task
-- gets its stack from the heap, and the timer interrupt (kernel/IRQ/timer.c) calls Schedule, which
-- gives stacks of ended tasks back to the heap. The file system (kernel/fs/minix) reads and writes
-- whole sectors of the drive (kernel/drivers/ide.c) and keeps inodes and zones in two bitmaps.
--
-- The files.
--   Prelude      tests, lists, integers, bits and bitmaps that the parts share; Prelude/Errno has the
--                numbers of include/LySys/errno.h.
--   CString      lib/string.c: a C string is the list of bytes from a pointer on. Compare,
--                Copy and Reverse are about strcmp, strncpy and reverse, Search has strchr, strrchr
--                and strtok, Memory has memcpy, memset and strcpy. A pointer that strchr or strrchr
--                returns is its distance from the string's begin; strtok takes last_pos and gives
--                the next one. Itoa is about itoa, Digits about the numbers that digits write.
--   Mem/Pmm      kernel/mem/pmm.c. The record Pmm has total_blocks, used_blocks and pmm_bitmap;
--                mark_used, mark_free, alloc_block and free_block are the functions pmm_mark_used,
--                pmm_mark_free, pmm_alloc_block and pmm_free_block; Usage has
--                include/LySys/ram.h.
--   Mem/Heap     kernel/mem/heap.c. The memory is a function from an address to the header there, a
--                null pointer is 0; kmalloc and kfree are the source's. Blocks describes a heap as a
--                list of blocks, with placement at the first fit and merging of free neighbours, and
--                Chain says when memory holds such a list.
--   Ram          the memory of bytes that pointers of the kernel read and write, with words of 32 and
--                64 bits; Words is about these.
--   Mem/Paging   kernel/mem/paging.c: safe_pmm_alloc and map_page over a store of the 64-bit entries of
--                the page tables and the frame allocator. Frames is about safe_pmm_alloc, Store and
--                Tables about tables that stand in frames of their own, Link, Map and Leaf about the
--                two kinds of entry that map_page writes, Mapped about the map from pages to entries
--                that the tables stand for, Empty about tables just cleared, Low about the
--                kernel's own frames.
--   Mem/Setup    paging_init of kernel/mem/paging.c and heap_init of kernel/mem/heap.c. Region is about
--                pages with frames of their own, HeapInit about heap_init.
--   Boot         kernel/mbi.c, the walk of pmm_init of kernel/mem/pmm.c over the boot information, and
--                what start_kernel of init/init.c makes of both. Tags says when memory holds a list of
--                tags; Marks is about the loops over pages, Walk about those over tags and entries, Init
--                about pmm_init, Start about mbi_parse behind it.
--   Sched        kernel/sched/task.c and kernel/IRQ/timer.c. The record Sched is the task table,
--                TaskCount, CurrentTaskPID and scheduler_started; Defs has Schedule pass by pass, Life
--                has sched_init, CreateTask, ExitTask, KillTask, msleep and sleep, Fork has TaskFork,
--                Faults the handlers of faults and of the timer of kernel/IRQ/traps.c, and ListTask.
--                Reach has the states that these can come to, Ticks is about sleep in calls of Schedule. Of the heap they take two functions,
--                the record Allocator.
--   Fs           kernel/fs, over the sectors of kernel/drivers/ide.c. Minix/Bitmaps has
--                minix_AllocateInode, minix_FreeInode and FreeZone, Minix/Layout the inodes and
--                directory entries of include/LySys/fs/minix.h with minix_ReadInode and
--                minix_WriteInode, Minix/Path has FindSectorOfPathDir and FindEntry, Minix/Files the
--                file operations of file.c (minix_CreateFile to minix_WriteFile), Minix/Dirs the
--                directory operations, Minix/Moves minix_RenameFile and minix_CopyFile, Minix/Super
--                superblock.c, root.c and minixfs_init; Vfs has vfs.c and its record of functions.
--                The remaining modules of Minix are about these.
--   Drivers      kernel/IRQ/scancode.c (keyboard_transform); kernel/time.c (time_init: Clock has what it
--                makes of the clock's values, Clock/Init the reads); kernel/drivers/ide.c: Ide has the
--                driver and ide_handler over the devices behind the ports, Ide/Drive what it relies on of
--                the drive, Ide/Sector that it reads and writes the sectors that Fs takes.
--   Io           include/asm/io.h: the devices behind the ports, a parameter, and code that works on
--                them.
--   Irq          kernel/IRQ/traps.c: set_idt_gate, pic_remap, irq_init and traps_init. Controller is about
--                what the mouse's set-up relies on, Gates about what the processor reads from the table.
--   Ksyms        kernel/sched/ksyms.c.
--   Gpu          kernel/GPU/screen.c over a memory of bytes. The loops of draw_rect, clear_screen and
--                draw_char are one function, paint, of the color at each place. Pixels is about
--                put_pixel and get_pixel, Paint about the shapes. Mouse has
--                mouse_handler of kernel/IRQ/traps.c, Saved and Pointer are about the picture under the
--                pointer.
--   Printk       kernel/printk.c. Format is about vsprintk, Cursor about the cursor of putchar, Scroll
--                about scroll. The arguments behind a format are a list of the data type Arg.
--   Tests        runs of the definitions, and each theorem at a concrete input.
--
-- How it is modelled. A machine integer is a natural number with its wrap-around written out, an
-- int is an integer, and state is passed explicitly. The loops over a table, a bitmap or a
-- string recurse on what is left of it. The loops of kmalloc and kfree over the linked list run
-- on fuel: kmalloc and kfree give 2 ^ 64, and a heap has fewer blocks than that, since each
-- takes at least the 24 bytes of its header below 2 ^ 64. The loop of reverse has the length as
-- fuel, which is enough from length 1 on; at length 0 the source's index wraps around and leaves
-- the buffer, and the model gives none. A header in the heap is a record of its own at its
-- address: two headers whose bytes overlap are not modelled, and a heap of blocks has none. The
-- byte is_free is a Bool. CurrentTaskPID is an index of the table: its value -1 before
-- sched_init is not modelled. The first write of CreateTask to the new stack reads the stack
-- pointer that it decrements in the same expression, which C leaves open; the model reads it
-- after the decrement. switch_to is the write of the stack pointer that it saves and the choice
-- of the one that it loads.
--
-- The loop of safe_pmm_alloc runs on one call more than there are frames, and that of heap_init on one
-- round more than the address space has pages. Those over the boot information run on 2 ^ 64, since
-- each moves on by a byte at least. A page table is the 512 entries at its virtual address.
--
-- What the devices behind the ports do is a hypothesis of the theorems about the code that uses them: a
-- drive that keeps to the ATA protocol for one sector, a clock that stands still while it is read, a mouse
-- controller that takes each command at once and answers behind some reads of its status. Loops that
-- wait for a device run on a number of reads, which these bound.
--
-- A struct minix2_inode is the list of its bytes, and a sector buffer is a list of bytes in which a
-- write behind the end is lost and a read there gives 0. What an uninitialised buffer on the stack
-- holds is a parameter (unset, unset_data) of the operations that use one. An int parameter of a
-- file operation is its pattern of 32 bits. The walk over a path runs on 256, the size of the copy of
-- the path that it splits; Walk shows that it is enough. The theorems on single file operations
-- are for names in the root directory. Lines that are printed are values that the operation returns.
--
-- The font that is linked into the kernel is a parameter. printk gives none where vsprintk would write
-- behind its buffer of 2048 bytes, read an argument that is not there or read behind the format.
--
-- What is not modelled: interrupts that arrive between two statements, which cli and sti keep out of
-- most of the code above, and the interrupt of the drive but at a halt; assembly, the loads of
-- control registers included; pictures; and the files that do not stand above.
pub mod Prelude
pub mod Fs
pub mod Gpu
pub mod Mem
pub mod Printk
pub mod Ram
pub mod Boot
pub mod Io
pub mod Irq
pub mod Ksyms
pub mod CString
pub mod Drivers
pub mod Sched
mod Tests
