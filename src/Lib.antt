-- ===== src/Lib.antt =====
-- The tachyon kernel: models of its C functions and proofs about them.
--
-- The kernel's parts stand in C files under src/. The list (list.c) is what the scheduler, the
-- interrupt gates and the timers keep their entries in; its nodes come from the kernel heap, an
-- instance of heap.c; strings, trimming and paths serve the command line and the file system.
--
-- Prelude passes on the shared names: the libraries', tests on numbers (Prelude/Tests), lists measured
-- by native numbers (Prelude/Lists), machine words and the macros ALIGN_DN, ALIGN_UP and ALIGN_RST of
-- src/tachyon.h (Prelude/Words).
--
-- Mem is src/mem.c: memset, memcmp, memcpy and memmove as loops over a memory, a function from
-- addresses to bytes. Mem/Moves has their theorems.
--
-- Text is src/string.c and src/char.c, on strings as the bytes before the terminator; a pointer into a
-- string is a suffix of it, and NULL is `none`. The comparisons return -1, 0 and 1 as `minus`, `equal`
-- and `plus`. Text/Trim is src/trim.c. Text/Compare, Text/Search and Text/Trim/Edges have the theorems.
--
-- Path is src/path.c: path_create cuts a text at the separators, path_string joins the components. A
-- buffer is kept with the number of bytes asked of heap_alloc; a write of path_string behind them has
-- an end of its own. Path/Split relates the loops to a split by recursion, Path/RoundTrip composes the
-- two functions.
--
-- Chain is src/list.c and src/list.h. Nodes lie at addresses in a store; Chain/Nodes has the commands
-- that read and write it, and an access through NULL or to a free address is a fault. The address of a
-- new node is an argument, what kheap_alloc returns. Chain/Shape says which list of data a store and a
-- descriptor stand for; Chain/Insert and Chain/Remove show what each function does to that list.
--
-- Heap is src/heap.c and src/heap.h: the macros on boundary tags, heap_init, heap_alloc, heap_validate
-- and heap_free, on a memory of words. Heap/Tiles gives the invariant: blocks tile the mapped part,
-- header and footer of each agree, the counters count the allocated blocks, no two free blocks are
-- neighbours, and the last block is free. Heap/Alloc and Heap/Free keep it. What vmem_map returns for
-- each page is the argument `maps`, and what the global mapping of a new page does to a heap with
-- PG_GLOBAL is the argument `global`, since it may allocate in the same heap; what pmem_alloc returns
-- counts only in heap_init, as in the code. A call of the two that is fatal ends the kernel, and the
-- heap with it.
-- Heap/Realloc has heap_realloc and heap_delete; Heap/Realloc/Replace and Heap/Realloc/InPlace lead to
-- Heap/Realloc/Resized, for a block that grows where it is.
--
-- Bmap is src/bmap.c: bitmaps over words, where a word is the function from its bit positions. Bmap/Bits
-- is about filling, Bmap/Search about the forward search. Pmem is src/pmem.c over it: regions of
-- pages, where Pmem/Reserve has the two passes of pmem_reserve. Pmem/Blocks, Pmem/Release and
-- Pmem/Reserve/Passes have the theorems.
--
-- Vmem is src/vmem.c and the walk of src/vmem_mgmt.c: an entry of a page table is an address and its
-- flags, and the tables of each level are kept apart, since pmem_alloc hands out a page only once; the
-- pages that it will return are part of the state. Vmem/Slots is the mapspace, Vmem/Clobber gives the
-- tables of an address space back, and Vmem/Global makes a new one. Vmem/Lookup shows what a walk
-- finds, Vmem/RoundTrip what is found behind vmem_map, Vmem/Clobber/Closed what is left.
--
-- Stack is src/stka.c: Stack/Layout shows where stacks lie, Stack/Faults how they grow. How pmem_alloc,
-- vmem_map and the global mapping end for a page is an argument, the fatal end included. Fault is the
-- handler of page faults in src/pgflt.c, which lets the stack of a thread grow.
--
-- Gdt is dyngdt_set of src/dyngdt.c, on a table of words. Timer is the list of timers of src/tmr.c,
-- and Timer/Generators the choice of the generator in tmr_init; what a generator answers is given with it.
-- Command is the splitting of the command line in src/mboot.c and the table of src/cmd.c;
-- Command/Pieces has the theorems.
--
-- Log is the text side of src/log.c. Log itself has log_format_u, log_format_s and log_parse_number;
-- Log/Format has log_format_message with the 32 characters of its buffer temp, an argument list of
-- integers and string pointers, and faults, of which a write behind the buffer is one; Log/Writers has
-- the table of destinations, where log_write lists the writers that it calls. Log/Digits,
-- Log/Format/Cut, Log/Format/Temp and Log/Writers/Calls have the theorems.
--
-- Sched is src/sched.c: the queues as lists of threads, what src/list.c makes of them, and
-- sched_schedule with the choice of a thread and the switch. What the two calls of systime() return are
-- arguments. Sched/Choice is about the choice, Sched/Queues and Sched/Switch count where a thread
-- stands, and Sched/Schedule is about the whole operation. Sched/RoundRobin and Sched/Yields are about
-- threads that take turns. Sched/Life adds thr_exit and thr_abort of src/thread.c and a step relation
-- of the scheduler's calls; Sched/Life/Gone and Sched/Life/Queued are about the states that it leads
-- to.
--
-- Process is src/process.c and the creation of threads in src/thread.c: what kheap_alloc, list_new,
-- pmem_alloc and vmem_map return is an argument, and prc_new lists what it gets and gives back.
-- Process/Create and Process/Threads have the theorems.
--
-- Boot is src/mboot.c: its temporary mappings in a region of pages (Boot/Temporary), the memory map of
-- the boot loader (Boot/Regions), and the module with the ram disk (Boot/RamDisk).
--
-- Time is src/systime.c with src/rtc.c and src/tsc.c, and the iteration of src/extp.c over the table of
-- sources, which the linker builds. Time/Choice is about systime_init, Time/Clock about the clock of
-- src/rtc.c, Time/Calibration about tsc_calibrate; what the counter holds at each tick is an argument.
--
-- Symbols is src/ksym.c: Symbols/Lookup is about ksym_get on a table of symbols, Symbols/Trace about
-- ksym_trace on any memory.
--
-- RamDisk is the tool of tools/apps/rd/rd.c with the structures of src/rd.h, as bytes. What the
-- operating system answers is the parameter `Host`. RamDisk/Bytes reads the headers back, RamDisk/Pack
-- and RamDisk/Unpack are about `create` and `extract`, RamDisk/RoundTrip about both, RamDisk/Kept about
-- `extract` on any image.
--
-- Intr is src/intr.c: the table of gates with intr_dispatch, intr_add and intr_remove. Which handlers
-- return true is an argument, and a dispatch lists the handlers that it calls. Intr/Nesting has
-- intr_set_mode, and intr_disable and intr_enable on the count of an execution context. Intr/Dispatch
-- and Intr/Nesting have the theorems.
--
-- Bounds and fuel. Sizes and counters wrap at 2 ^ 64, and an address plus a size is taken to stay below
-- it: the theorems on the heap ask for a mapped part that ends below `top`, 2 ^ 64 less 16 pages. The
-- loops of list_remove, list_clear and list_delete run on fuel, and one round more than there are nodes
-- is enough; the loop of heap_alloc takes at most two rounds more than there are blocks; the loops of
-- path_create, strrstr and log_format_message get their fuel from the length of the text, which each
-- round shortens; log_format_u has 64 rounds for numbers below 2 ^ 64. The search in a bitmap has one
-- round more than bits, and pmem_reserve one for each page of the range. mboot_map looks at one page
-- more than there are to the end of its region. ksym_trace has 256 rounds, the number of frames that
-- the code itself allows, and tsc_calibrate ends at the ninth tick. The image of a ram disk has at most
-- 0x7ffff000 bytes, what one call of the operating system writes. A run that is out of fuel satisfies
-- none of the conclusions.
--
-- Not modelled: the check that the heap's address space is the current one, which is fatal otherwise;
-- locks; messages to the log, and the checks of HEAP_CHECK; the backward search of a bitmap; the dumps of page tables; pmem_init and the protection of the boot
-- loader's memory; the walk over expired timers; the deletion of threads and the switch between their
-- contexts; system calls; address spaces, which are two calls each of modelled functions and a switch in
-- assembly; the virtual file system, which has no implementation of its operations; assembly, devices,
-- and src/contrib, another project's code.
pub mod Prelude
pub mod Symbols
pub mod Time
pub mod Boot
pub mod Process
pub mod RamDisk
pub mod Mem
pub mod Text
pub mod Path
pub mod Chain
pub mod Heap
pub mod Bmap
pub mod Pmem
pub mod Vmem
pub mod Stack
pub mod Fault
pub mod Timer
pub mod Command
pub mod Gdt
pub mod Log
pub mod Sched
pub mod Intr
