-- ===== src/Lib.antt =====
-- Models of WyrmOS, a hybrid kernel for x86-64, with the theorems about them.
--
-- The kernel (kernel/, with its architecture part in kernel/arch/x86_64), its modules (modules/), the
-- C library (lib/libc, built for the kernel and for programs) and the containers (lib/types) are one C
-- program each for the parts modelled here. The containers and the C library call nothing but malloc;
-- the kernel's memory, file system and process code is built on them.
--
-- Base holds what all models share: Boolean tests, lists with native indices, the bits of a word,
-- 64-bit arithmetic and the macros of kernel/include/util.h (Base/Word), integers for the results of
-- comparisons (Base/Int) and chains of results that may be missing (Base/Fail).
--
-- Types is lib/types. Types/Heap is a heap of list nodes and list objects and the commands on it; a
-- command fails where C follows a pointer to no live object or an assert fails. Types/DList has the
-- functions of lib/types/list.c under their C names over this heap, Types/DList/Sort list_swap and
-- list_sort_cmp. The loops over a list take a bound of rounds.
--
-- Libc is lib/libc. Libc/Ctype is ctype/ctype.c; Libc/Memory is string/memory.c and Libc/Str is
-- string/string.c, over a memory that gives each address its byte. Loops that end at a NUL take a
-- bound of rounds, and each theorem says how many are enough: more than the string has bytes.
-- Characters are bytes without sign. Libc/Number is stdlib/stdlib.c, on ints as patterns of 32 bits
-- that wrap around, and Libc/Env is stdlib/env.c, on strings as lists of their bytes. Libc/Printf is
-- stdio/printf.c: Libc/Printf/Put has __emit_str and __put_number, for any emitter, Libc/Printf/Format
-- its arguments and characters, Libc/Printf/Machine __vprintf_generic, on the bytes of the format and
-- a list of arguments, with a bound of rounds, and Libc/Printf/Buffer the emitter into a buffer. A
-- write outside of the stack of __put_number and an argument of the wrong kind are faults; %n stores
-- through its argument into the memory, while the format and the strings are values apart from it.
--
-- Mem/Pmm is kernel/mem/pmm.c with the static variables as a record; its loops run over the words and
-- bits that the C loops run over and need no bound. Mem/Heap is kernel/mem/alloc.c, kmalloc and kfree
-- over a memory of words, with a bound of rounds for each walk over a list of slabs; Mem/Slab has what
-- is known of them, with the free list of a slab as a stack of addresses. Mem/Mmio is
-- kernel/mem/mmio.c and kernel/mem/mmap.c, which ask the page tables by a list of requests; Mem/Dma
-- has the memory for devices, over Mem/Pmm and Mem/Paging.
--
-- Fs/Path is kernel/fs/path.c, path_parse on the byte memory with strcpy and strtok of Libc/Str, the
-- other functions on strings as lists of bytes. Fs/Vfs is the tree of mount points of kernel/fs/fs.c;
-- trees are values, and the operations of the mounted file systems are arguments, as are the bytes
-- behind a name that fills its field.
--
-- Proc is kernel/proc/process.c on one core: Proc/Process the objects and queues, Proc/Queues the
-- ready queue, Proc/Signals the sending of signals, Proc/Invoke what becomes of them, with a bound of
-- rounds for the jumps back, of which 20 are enough for 19 signals, Proc/Files the open files,
-- Proc/Sleep the sleep queue, Proc/Wait the wait queues, Proc/Fork the creation of processes, over
-- Mem/Paging/Space and Cpu/Signal. A queue is the list of the processes in it; what list.c does to
-- such a list is the subject of Types/DList.
--
-- Cpu/Syscall is kernel/cpu/syscall.c, the table of system calls and their handlers, on the state of
-- the scheduler and of the open files; what they call in the file systems, the loader, mmap and the
-- page tables is a record of operations, an argument of the model. Cpu/Signal is
-- kernel/arch/x86_64/proc/signal.c, the registers of a program and the frame of a signal's handler on
-- its stack, and Cpu/Interrupt is __dispatch_interrupt of kernel/arch/x86_64/cpu/interrupt.c with
-- __handle_pagefault of kernel/arch/x86_64/mem/paging.c, over Proc/Invoke and Cpu/Signal.
--
-- Symbols is kernel/symbols.c: the searches over the table of exported symbols.
--
-- Mem/Paging is kernel/arch/x86_64/mem/paging.c, the four levels of page tables over a memory of words
-- and the allocator of Mem/Pmm; the loops run over four layers, 512 entries and the pages asked for.
-- Mem/Paging/Space has the address spaces and the check of pointers, with a bound of rounds.
--
-- Exec is kernel/exec. Exec/Initrd is initrd.c, the archive as a byte memory. Exec/Elf is the part of
-- elf.c that loads a module, with the numbers of several bytes of Libc/Words, and Exec/Start the
-- layout of k_elf_exec. Exec/Module is module.c from the modules found to the modules loaded. The
-- loops over files, sections and modules take a bound of rounds.
--
-- A lock is held through each function modelled, so that a call is one step. Log output is left out.
-- Not modelled are device drivers and port input and output, the assembly of the architecture part and
-- the context switch, the bootloader's protocol, exec.c, and PCI.
pub mod Base
pub mod Cpu
pub mod Exec
pub mod Fs
pub mod Libc
pub mod Mem
pub mod Proc
pub mod Symbols
pub mod Types
