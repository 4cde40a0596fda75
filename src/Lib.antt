-- ===== src/Lib.antt =====
-- The kernel `clay_figure_kernel` is a message-passing kernel for x86-64. Modelled here are its
-- memory management, its scheduler's ready list, its messages between tasks, and the library
-- functions that these stand on. Paths are from the repository's root.
--
-- - Base: the vocabulary of the other modules: comparisons, arrays as lists with native
--   indices, 64-bit words with their wrap-around, bits of a byte, the status codes `K_*` of
--   src/arch/x86_64/include/kernel/global.h, and `Run`, the way in which a call ends: it
--   returns, fails an assertion or faults (`panic`), or waits for ever (`spin`).
-- - Bitmap: src/lib/bitmap.c. A `bitmap_t` is the array of its bytes and its length;
--   `bitmap_alloc` is split at its loops (`skip_full`, `count_run`, `search`).
-- - Sync: src/arch/x86_64/sync/spinlock.c, as one processor sees it, with the preemption count
--   of the running task beside the lock.
-- - Atomic: src/arch/x86_64/sync/atomic.c: each function is one locked instruction on a value
--   of 64 bits.
-- - Page: the pool of 2 MiB pages of src/arch/x86_64/mem/page.c (`alloc_physical_page`,
--   `alloc_physical_page_sub`, `free_physical_page`), over the bitmap and the spinlock.
-- - Klist: src/lib/list.c. The heap is two functions from node addresses, `prev` and `next`;
--   `IsList` says which sequence of nodes a list holds.
-- - Strings: src/lib/string.c. Memory is a function from addresses to bytes, pointers wrap at
--   2^64; `memcpy` and its like return their first argument beside the memory.
-- - Fifo: src/lib/fifo.c, over the memory of Strings and the spinlock; `item_at` is a byte of
--   an item that waits. Its fields of type `int` are words of 32 bits.
-- - Vmm: src/mem/vmm.c. A table of address ranges is an array of blocks with the number in use;
--   `holds` is the set of addresses that it stands for, and `IsValid` the order and the gaps of
--   the blocks.
-- - PageTable: src/arch/x86_64/mem/page.c from `page_map` on. The tables are words in memory at
--   their addresses, and an address is walked through three of them. `kmalloc`, `kfree` and
--   `free_physical_page` are arguments of the definitions; Blocks gives `page_map` the `kmalloc`
--   of Heap, beside a set of the addresses that are tables in use.
-- - Heap: src/mem/allocator.c, over Klist, Page and the spinlock. A block and a cache are their
--   addresses, their members functions of these; `kmalloc` is split behind the choice of the
--   group (`kmalloc_from`), at the refill from the page pool (`refill`), the search
--   (`kmalloc_find_block`) and its end (`hand_out`).
-- - Schedule: src/arch/x86_64/task/schedule.c: the ready list of a processor with its counters
--   and its times; a task is the address of its tag in the list.
-- - Ipc: src/arch/x86_64/syscall/ipc.c, with `sys_send_recv` and the body of
--   the loop of `check_waiting_list`. Each
--   member of a task is a function of its pid; `Steps` is the relation in which the calls of all
--   tasks and the interrupts are interleaved.
-- - Softirq: src/softirq/softirq.c, over Atomic; the actions are parameters, and so is what the
--   interrupts do that come in during a round.
-- - Ramfs: src/ramfs/ramfs.c, the files of an image in the memory of Strings.
-- - Elf: src/elf/elf.c, over the memory of Strings; a file is the address of its head.
-- - Symbols: src/kernel/symbols.c; the table of symbols that the build makes is a parameter.
-- - Task: src/arch/x86_64/task/task.c: the slots of the table of tasks (`task_alloc`,
--   `task_free`) and the loop of `main_task_adopt_child` over them.
-- - Config: src/kernel/config.c: the reader of the configuration file and its table of items, a
--   list; the item behind the 64th, which the code writes over other data, ends the run.
-- - Stdio: src/lib/stdio.c: `vsprintf` with the functions that it calls, from a list of bytes and
--   a list of arguments to a list of bytes.
--
-- Schedule and Ipc stand on Klist, Atomic and the lists of Base; Base.Update is a function
-- changed at one place, which is how a member of one object is set. A module `Samples` holds the
-- states that several tests start from.
--
-- A loop over an array runs by recursion on the number of its rounds that are left, so it needs
-- no fuel; the outer loop of `bitmap_alloc` has one round for each bit, and moves up in each. The
-- walks of a string run on one unit for each byte. The walks of a list run on fuel, one unit for
-- each node and one for the tail; the theorems on both ask for more fuel than the list has nodes
-- or the string has bytes, and show that the walk then returns. The digits of a number are
-- printed by rounds, 64 of which are enough for a word, and the reader of the configuration takes
-- one round for each byte of the file at most. Words are natural numbers, and sums,
-- differences and products that the code computes in 64 bits wrap (`add64`, `sub64`, `mul64`).
--
-- Not modelled are the log lines; the set-up of the page pool from the firmware's memory map and
-- the page-fault handler; the switch of contexts in `schedule`, the set-up and the end of a task;
-- the services behind a message to the kernel; the semaphore; the entry code in assembly, the
-- devices, the drawing of text and the boot loader. A `double` has no numbers in the model, so its
-- digits are a parameter of Stdio; a width or a precision that no `int` holds ends the run there.
-- src/include/stb_truetype.h and src/include/elf.h are other projects' files.
pub mod Base
pub mod Bitmap
pub mod Atomic
pub mod Sync
pub mod Page
pub mod Klist
pub mod Strings
pub mod Fifo
pub mod Stdio
pub mod Schedule
pub mod Ipc
pub mod PageTable
pub mod Heap
pub mod Softirq
pub mod Ramfs
pub mod Elf
pub mod Symbols
pub mod Task
pub mod Config
pub mod Vmm
