-- ===== src/Lib.antt =====
-- A model of parts of the sysx kernel, with theorems about it.
--
-- sysx is a small kernel in C for a 32-bit x86. The page frame allocator (mm/) hands out frames; tasks
-- and processes (exec/) share the processor through a scheduler that the timer calls; files (fs/) are
-- nodes of a virtual file system, behind which drivers stand as tables of hooks; the
-- keyboard, the screen, the terminal (hal/) and the PCI buses (drivers/) are reached through hooks and
-- ports; a C library (lib/) and helpers (helpers/) serve all of these.
--
-- Base: what the models share. Base/Word: size_t and uintptr_t have 32 bits, and sums, differences and
-- products are taken modulo 2^32 where the code can overflow. Base/Bits: masks of one bit. Base/Lists:
-- arrays. Base/Memory: byte memory as a function from addresses. Base/Int: signed results.
--
-- Mm/Pmm: mm/pmm.c. Pmm holds pmm_bitmap and pmm_frames; alloc, free, first_free and alloc_free are the
-- functions of the same names. The search is on fuel, one more than the number of frames, since each
-- round moves on by a frame. Frame numbers stay below 2^32 - 4 in the theorems that say so.
--
-- Exec/Task: exec/task.c. Tasks is the memory of the task structures, Sched the variables of the file;
-- insert, unlink, yield and the others are its functions or the parts of them that write the queue. The
-- selection of task_yield is on fuel, and a number above the length of the queue is enough.
--
-- Fs/Vfs: fs/vfs.c. A node is an address with the fields that the file reads. The hooks of the drivers
-- are parameters that act on a state of their own. Links are followed on fuel, since the code can follow
-- them for ever; the walk along a path is on fuel that its length bounds.
--
-- Helpers/Path and Helpers/Basecol: helpers/path.c and helpers/basecol.c.
--
-- Libc/String: lib/string.c over byte memory.
--
-- Fs/Ftab: fs/ftab.c, with its mutexes: a call returns or waits for one that is held. The calls of vfs.c
-- are a record of operations on a state of the file system, and the success of krealloc is an argument.
--
-- Exec/Process: exec/process.c, the process numbers, the tasks of a process and its descriptors, which
-- stand on Fs/Ftab, and proc_create. proc_fork and proc_delete are left out.
--
-- Libc/Stdlib: lib/stdlib.c, the conversions of text to numbers, kcalloc and the random numbers.
--
-- Hal/Keyboard: hal/keyboard.c, the ring of key events. Walks along the ring are on fuel; 64 rounds reach
-- every index of the ring.
--
-- Fs/Memfs: fs/memfs.c. Hal/Devtree: hal/devtree.c, whose walk is on fuel for the path and for the
-- children of a node. Exec/Syms: exec/syms.c.
--
-- Kernel/Cmdline: kernel/cmdline.c. Fs/Tarfs: fs/tarfs.c, whose parser is on fuel of one round for every
-- 512 bytes of the archive.
--
-- Fs/Devfs: fs/devfs.c, the list of devices. Hal/Timer: timer_handler of hal/timer.c.
--
-- Mm/Vmm: mm/vmm.c over a record of the calls of the target, of which nothing is assumed: the theorems say
-- which calls a function makes, as the lists of pages of Mm/Vmm/Pages.antt, and what it returns. The loops over a range are on fuel of one round for each page of the range and one more. Traps are known by
-- their indices, as if krealloc left the array in place, and the memory that the traps and the staged frames
-- ask for comes from a list of answers.
--
-- Exec/Elf: exec/elf.c for a 32-bit x86. A file is what the reads of its headers, symbols, relocations and
-- strings give, and a read gives all that is asked for. The loader stands on Mm/Vmm, Mm/Pmm and Exec/Syms. What
-- elf_load_prg copies goes through the window of a page that it maps to each frame in turn.
-- The loops over the pages of a segment are on fuel; the loops over sections and entries follow their counts.
--
-- Helpers/Mutex: helpers/mutex.c, as steps of the tasks that use one mutex in any interleaving. Any task
-- that is not waiting can release it, as the code allows; a run in which only holders do is called careful.
--
-- Arch/Paging: arch/x86cpu/vmm.c, the directory and the tables of the current address space. Left out are
-- the windows through which the code reaches another address space, the copies of a new table to the other
-- tasks, what the processor caches, and vmm_clone, vmm_free and vmm_switch; vmm_unmap_resolve_cow is an
-- argument. The tables are kept apart from the directory, so that the region of the recursive mapping, from
-- 0xffc00000 on, is not modelled, and the theorems are about addresses below it. The calls of Mm/Vmm are
-- those of this file; the two models are not joined.
--
-- Hal/Fbuf: hal/fbuf.c, over byte memory. The hooks of a driver, the drawing of a font and the pages of the
-- second buffer are arguments; fbuf_unload is left out.
--
-- Hal/Fbterm: hal/term_fbuf.c on Hal/Fbuf, with a frame buffer and a font in place. The loop of a tab is on
-- fuel of four rounds, behind which the column is a multiple of four.
--
-- Mm/Kheap: mm/kheap.c, kmorecore, on Mm/Vmm and Mm/Pmm. The bounds of the linker script are arguments; the
-- other functions of the file pass their calls on to the third-party allocator.
--
-- Hal/Terminal: hal/terminal.c. The hooks of an implementation are an argument and act on a state of their
-- own; a mutex that is held is a wait without end. The loop over a line is on fuel of a round for each
-- character, and the wait for a character has its own.
--
-- Drivers/Pci: drivers/pci.c over an interface of aligned reads and writes, which arch/x86/pci.c fills through
-- its ports. The scan is on fuel for the bridges behind one another, since a bridge can lead back to its own
-- bus. Drivers/Pci/Routing finds the interrupt of a function in the registers, by ACPI, which is an argument,
-- or in the tables of the multiprocessor specification. The log and the names of nodes are left out.
--
-- Not modelled: the allocator and the formatter (third-party code); board support, interrupts, the local
-- APIC and descriptor tables (arch/), ACPI, and the drivers of serial ports and of the text screen; the system
-- calls. Mutexes are not modelled unless a module says so: a function that holds one for its
-- whole body is one step.
pub mod Base
pub mod Arch
pub mod Drivers
pub mod Exec
pub mod Fs
pub mod Hal
pub mod Helpers
pub mod Kernel
pub mod Libc
pub mod Mm
