-- ===== src/Lib.antt =====
-- AetherOS: a model of parts of the kernel and of the C library, with theorems on them.
--
-- AetherOS is an operating system for x86-64. A boot loader (boot/uefi) loads the kernel (kernel/)
-- and hands it the memory map. The kernel manages physical pages (kernel/mem/pmm.c), address spaces
-- and a heap, runs threads in turn on every timer interrupt (kernel/sched), and gives processes
-- descriptors, pipes and credentials (kernel/proc, kernel/security), which the system calls
-- (kernel/syscall) use. User programs are linked with a small C library (user/libc).
--
-- Which file models what:
--   Prelude, Prelude/*   machine words, bits, arrays as lists, searches in them.
--   Ring                 circular buffers in an array.
--   Pmm, Pmm/*           kernel/mem/pmm.c and kernel/mem/pmm.h: the bitmap of the physical pages, as
--                        a list of 64-bit words. The definitions have the names of the C functions.
--                        The number of words is a parameter: the source has 262144.
--   Sched, Sched/*       kernel/sched/sched.c and the thread struct of kernel/sched/thread.h: run
--                        queue, sleepers and sched_tick, on a store of threads linked by numbers.
--   Pipe, Pipe/*         kernel/proc/pipe.c: the pipe table and its ring buffers.
--   Fd, Fd/*             kernel/proc/fd.c: the descriptor table of a process.
--   Cred, Cred/*         kernel/security/cred.c: user and group ids, and the access check.
--   Mutex, Mutex/*       kernel/sync/mutex.c: the sleeping lock, and the threads that use it.
--   Keyboard, Keyboard/* kernel/drivers/ps2kbd.c: scan codes, and the ring of characters.
--   Vfs, Vfs/*           kernel/fs/vfs.c: path resolution, the table of open files, and the calls on
--                        files, over the functions of kernel/fs/ext2.h as an argument.
--   Ext2, Ext2/*         kernel/fs/ext2.c: the disk as its blocks, the structs on it as their bytes.
--                        Bitmaps, Dirs, Lookup, Files, Write, Names, Stat and Mount hold the functions.
--   Malloc, Malloc/*     user/libc/src/stdlib.c: malloc, free, calloc and realloc over the arena.
--
-- How the parts meet: a descriptor of Fd of a pipe type holds the index of a pipe of Pipe; the
-- scheduler's threads belong to processes, whose credentials are those of Cred. These links are
-- made by kernel/syscall/syscall.c and kernel/proc/process.c, which are not modelled. Vfs works on
-- any file system that gives the functions of ext2.h, and Ext2/Mount gives it Ext2's.
--
-- Conventions. State is a record that each operation takes and returns. The operations that hold a
-- lock from their first to their last access to the state are one step on it; the wake-up that
-- mutex_unlock makes when it has released its lock is a step of its own. Numbers are natural numbers, and an operation on a machine word has its wrap-around written out. A panic of the
-- kernel is the value none, and so are NULL and PMM_ALLOC_FAILED.
--
-- Fuel. The walk over the sleepers takes fuel, and the number of sleepers is enough, since a round
-- passes one. The loops of malloc and free have 16384 rounds: a block of a tiled arena has 32 bytes
-- or more, so there are at most 8192. The loop of vfs_resolve takes one more than the bytes of the
-- path, since a round takes a byte. A round of ext2_lookup, ext2_read and ext2_write takes a byte or
-- more too, and each has as many rounds as there are bytes; a scan of a directory block takes an
-- entry of eight bytes or more in a round. All other loops are by recursion on a list or a number.
--
-- Not modelled: the output to the serial line, the other drivers and all that is done by privileged
-- instructions (interrupts, page-table loads, atomic instructions), which are outside the language
-- of the model; the heap and address spaces of the kernel, the network, the processes and the
-- system calls. In a tick, the calls to other parts (freeing a dead thread, switching the address
-- space) are kept as a list of effects. The headers of malloc's blocks stand apart from the
-- payloads, so a program that writes outside its payloads is not modelled, nor is calloc of a product
-- above 2^64 - 32, which does so. In ext2.c a block moves in one step, the device and kmalloc answer
-- the same way during one call, the buffers for the parent of a path are taken to be long enough, and
-- a read that fails leaves nothing in the caller's buffer.
pub mod Prelude
pub mod Cred
pub mod Ring
pub mod Fd
pub mod Pipe
pub mod Pmm
pub mod Sched
pub mod Malloc
pub mod Keyboard
pub mod Vfs
pub mod Ext2
pub mod Mutex
