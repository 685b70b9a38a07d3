-- ===== src/Lib.antt =====
-- A teaching kernel for x86 with audio output, in C++ (kernel/). This library models its core and
-- proves what makes the parts correct. Numbers are natural numbers; a 32-bit or 64-bit value is
-- reduced modulo 2 ^ 32 or 2 ^ 64 wherever the source computes in that width. Debug::panic and a
-- failed ASSERT never return: Prelude.Outcome has them as the outcome panic.
--
-- Queue (kernel/queue.h) is the intrusive first-in first-out queue: add, remove and remove_all
-- over a store of next fields that all queues share. Queue.Chain says what a queue holds,
-- Queue.Fifo compares it with a list, Queue.Frame says that two queues do not disturb one
-- another.
--
-- Threads (kernel/threads.h, kernel/threads.cc, the timer handler of kernel/pit.cc) is the
-- scheduler: schedule, block, yield (yield_core), stop, delete_zombies and apitHandler (timer)
-- are functions on a Machine, which has the ready and zombie queues, activeThreads, the
-- no_preempt flags, the stack pointer and page directory of each core. block is one pass of its
-- loop; the switch itself is in kernel/context.s, of which context_switch keeps the two flags,
-- the page directory and the action. Each operation is one step, since a lock is held or
-- interrupts are off around it; what other cores do between two operations is the choice of the
-- next operation. Threads.View says what the queues hold, Threads.Block and Threads.Fair prove
-- the operations. delete_zombies takes fuel; one more than the number of zombies is enough, as
-- proved.
--
-- Semaphore (kernel/semaphore.h, kernel/blocking_lock.h) is built on the scheduler as in the
-- source: a thread that blocks joins the waiting queue in the action of block, and up hands a
-- waiting thread to schedule. Semaphore.Waiting gives the promise on lists, Semaphore.Calls
-- proves one call, Semaphore.Balance sequences of calls.
--
-- K (kernel/libk.h, kernel/libk.cc) has the string functions. BlockIo (kernel/block_io.h,
-- kernel/block_io.cc) reads bytes of a block device, which is a record of what a subclass gives;
-- the loop of read_all takes one round more than the bytes asked for as fuel, which is proved to
-- be enough. Ext2 (kernel/ext2.h, kernel/ext2.cc) has nodes, their block pointers (find_block is
-- the choice of block_index in read_block) and, in Ext2.Directory, directories; a node is a block
-- device over the disk, as in the source. The loop over a directory takes one round more than its
-- bytes as fuel. Ext2.Volume has the class Ext2: mount (its constructor), get_node and the path
-- walk find, whose loop takes one round more than the bytes of the path as fuel, which is proved
-- to be enough; the last component of a node's data, the 60 bytes that hold a short symbolic
-- link, is an argument of get_symbol. OpenFile (kernel/openfilestruct.h) is an open file with its
-- offset; its results are 32-bit patterns.
--
-- Process (kernel/process.h, kernel/process.cc) has the handle tables of a process: newSemaphore,
-- getSemaphore, setFile, getFile, close, wait and fork, the last without its copy of the address
-- space. Process.Objects reads the three tables as one map from handles to objects, by which
-- Process.Tables, Process.Closing and Process.Family state the operations.
--
-- PhysMem (kernel/physmem.h, kernel/physmem.cc) is the frame allocator, over a memory of words
-- that holds the free list: alloc_frame (take_frame, then clear_frame), dealloc_frame and init.
-- PhysMem.Frames says which frames are free and which in use, PhysMem.Client (with the list
-- lemmas of PhysMem.Places) runs any sequence of calls. Lock (kernel/atomic.h) is
-- InterruptSafeLock with the interrupt flag of each core, one access a step; Lock.Owner says who
-- has the lock, and Lock.Exclusion proves what any interleaving keeps.
--
-- BoundedBuffer (kernel/bb.h) has put and get as steps between calls on its three semaphores,
-- which are counts there, for any interleaving of any number of threads. BoundedBuffer.Ring is
-- the array that wraps, BoundedBuffer.Counts the balance of the counts, BoundedBuffer.Order the
-- order of items. Its counts stay below the size plus one, so the 64-bit counts do not wrap.
-- Future (kernel/future.h) has set and get, one access a step, for one thread that sets and any
-- number that get.
--
-- Vmm (kernel/vmm.cc) has map, unmap and vmm_pageFault (page_fault, with the register CR3 and the
-- saved one as arguments) on page directories in the memory of PhysMem; translate is what the
-- processor reads there. Vmm.Mapping proves a write of one entry, Vmm.Growth a new page table,
-- Vmm.Elsewhere writes to other frames, Vmm.Calls, Vmm.Faults and Vmm.Unmapping the operations.
--
-- Heap (kernel/heap.cc) is the heap: heapInit (heap_init), malloc and free with each of their
-- helpers, on an array of ints, where an access outside the array is an outcome of its own.
-- Heap.Tiles says how blocks cover the array, with a gap where an operation cuts anew, Heap.Links
-- what the list of available blocks is, Heap.Reads that the array shows both. Heap.Writes
-- computes what the operations leave in the array, Heap.Steps and Heap.Cuts what that does to the
-- blocks, Heap.Untouched what it leaves alone; Heap.Allocation, Heap.Search, Heap.Release,
-- Heap.Freeing and Heap.Start put malloc, free and heapInit together. heapInit allocates its lock
-- in the new heap, whose size (lock_size) is an argument; what the constructor stores in that
-- block, like all that clients store in theirs, is not part of the state. The search of malloc
-- takes two rounds more than the height of the first block in the list as fuel, which is proved
-- to be enough.
--
-- Sys (kernel/sys.cc) has strlen and the stack that SYS::exec builds, with Sys.Memory,
-- Sys.Strings, Sys.Stack and Sys.Captures on what stands in user memory, and Sys.Calls has
-- sysHandler, over the models of processes, open files, ext2 and semaphores; Sys.Guards proves
-- calls. Sys.Audio has the header of a WAV file (findWavHDR of kernel/process.cc) and the loop of
-- play_audio, less what fillBuffers and AC97::play do; Sys.Playing proves what it plays. strlen,
-- the loop over symbolic links and the loops over chunks take fuel. Elf (kernel/elf.h,
-- kernel/elf.cc) has the headers of an executable and the loader, which Elf.Image compares with a
-- description of a program's image. Pci (kernel/pci.h, kernel/pci.cc) has the PCI configuration
-- space and findAC97, whose writes to the ports of the codec are a list; what a device keeps of a
-- word written to it is a part of the state. Pci.Words proves the half words, Pci.Scan the search
-- and Pci.Setup what it leaves. The DMA buffers and the waiting of AC97::play are not modelled.
--
-- Not modelled: the hardware side of playing audio, assembly, start-up code, port input and
-- output, the printf engine (a copy of another project's snprintf), and the user programs.
-- Reference counts of Shared are not part of the states.
pub mod Prelude
pub mod Pci
pub mod Heap
pub mod Sys
pub mod Elf
pub mod K
pub mod Future
pub mod PhysMem
pub mod Vmm
pub mod Lock
pub mod BoundedBuffer
pub mod Process
pub mod Queue
pub mod Threads
pub mod Semaphore
pub mod BlockIo
pub mod Ext2
pub mod OpenFile
