-- ===== src/Lib.antt =====
-- Tina, a small operating system for MIPS, written in C. The tree has the kernel (kernel/), the
-- drivers (drivers/), libraries that kernel and tasks share (libs/), the boot code and the entry
-- points in assembler (arch/mips/), the initialisation (init/main.c), the user tasks (test/) and
-- the tool that builds the image (tools/createimage.c).
--
-- The parts modelled and their files:
-- - Base: lists and tests over the native numbers, and the bits of a number.
-- - Bitmap: the bit map of inodes, kernel/fs/bitmap.c.
-- - Queue: the queues, kernel/sched/queue.c. A pointer is a number, NULL is 0, and the heap is the
--   record Links of the fields `prev` and `next` of items and `head` and `tail` of queues.
--   Queue.Chain relates it to the list of items (IsQueue).
-- - Kernel: the state that the scheduler, the processes and the locks share, the globals of
--   kernel/sched/sched.c and the fields of a PCB (include/os/sched.h) and a lock
--   (include/os/lock.h). Kernel.Outcome is the result of code that may not return: `ok`, `stopped`
--   for a read or write through NULL, or of the links of a lock that lie over another object
--   (Kernel.overlaps), and `out_of_fuel`.
-- - Sched: kernel/sched/sched.c, kernel/sched/time.c, the clock of kernel/irq/irq.c and the
--   release of a lock of kernel/locking/lock.c, which the scheduler calls for a task that exits.
-- - Proc: kernel/sched/proc.c and `init_pcb` of init/main.c.
-- - Memory: kernel/mm/memory.c and `init_page_table` of init/main.c.
-- - Screen: drivers/screen.c. The terminal at the serial port is a parameter of Screen.Reflush, with
--   what is relied on of it: a character stands where the cursor has been moved to.
-- - Strings: libs/string.c, on a memory of bytes.
-- - Lock: kernel/locking/lock.c. A call of `do_mutex_lock_acquire` is modelled up to its next
--   `do_block`, which gives the processor to another task. Lock.Spin has the spin locks, and the step
--   relation of the tasks that use one, an access at a time. Lock.Round, Lock.Exit and Lock.Cleanup
--   are about what kernel/sched/sched.c does with the locks of a process that exits.
-- - Tokens: the loops that cut a path of kernel/fs/path.c, or a command, at a separator.
-- - Fs: the file system, include/os/fs.h and kernel/fs. A structure is a buffer of its bytes (Base.Bytes)
--   and the disk a parameter, the two calls `sdread` and `sdwrite` of the firmware with what they do
--   to the bytes of the disk (Device, IsDevice). Fs.Disk is kernel/fs/disk.c, Fs.Format kernel/fs/fs.c,
--   Fs.Path kernel/fs/path.c and Fs.Text kernel/fs/text.c. The addresses on the disk are below 2 ^ 31
--   for every inode number that `check_ino` lets pass. Objects of the stack start with any contents.
-- - Syscall: the calls of kernel/syscall/syscall.c and the table that `init_syscall` of init/main.c fills.
-- - Irq: the handlers of kernel/irq/irq.c; the registers of CP0 and of the board are arguments.
-- - Shell: the line and the tasks of test/test_shell.c; Shell.Commands is `decode`, on the tasks (Proc)
--   and the file system (Fs).
-- - Mailbox: libs/mailbox.c; its semaphores are counts, and a call that has to wait stops there.
--   Mailbox.Tasks is the step relation of several senders and receivers, a statement at a time.
-- - Net: drivers/mac.c and drivers/mac_support.c. The bus is a parameter (Board): a load or a store of a
--   word reaches memory or a register of the board. What is relied on of it is a
--   hypothesis: a range of addresses is memory (IsRam).
-- - Sync: the conditions, semaphores and barriers of kernel/locking, from one switch of tasks to the next:
--   Sync.Resume is where a task goes on that has been switched away. Sync.Wait is about the calls that
--   switch the task away, Sync.Raise about those that wake tasks.
-- - Boot: `_start` of init/main.c, with what it calls in the other parts. The code of the handlers of
--   arch/mips/kernel/entry.S is a range of bytes (Labels).
-- - BootImage: tools/createimage.c. The layout of the headers of an executable file, from <elf.h>, is a
--   parameter (ElfFormat).
--
-- Pointers to PCBs are `pcb + i` for the slots `i` of the table; the queues inside a PCB or a lock
-- at `p` have the pointers `holding p`, `waiting p` and `block_queue p`, all different from each
-- other and from `ready_queue`. The links of a lock in
-- `holding` lie behind the lock (lock.c:32); where they belong to another object, `overlaps`, a run that
-- writes them is `stopped`.
-- The loops over a table run on the number of slots left, the loops over a queue on fuel:
-- `queue_has` and `do_unblock_all` end with fuel above the length of the queue, the loop of
-- `scheduler` with fuel above the number of sleepers in front of the task it takes, the loops over
-- a string on fuel above its length, the busy waits
-- (Base.Poll) on fuel above the number of tests, the loop over a segment of the image on fuel above
-- its size.
-- A time is a 32-bit word and wraps round. The process ids, of type int, are
-- counted without a bound: fewer than 2 ^ 31 processes are spawned.
--
-- Not modelled: the registers that the assembler saves and restores, CP0 and the TLB, messages
-- that are only printed, and the registers of the network board that no operation uses. Printing is a
-- copy of another library and has no model. Names and paths that do not fit into their arrays
-- have none either: the code writes behind them. A line or a command that does not fit into the arrays
-- of the shell, and an access with a descriptor behind the table, outside of the block or at an address
-- that is no int, gives `none`.
pub mod Base
pub mod Bitmap
pub mod Queue
pub mod Kernel
pub mod Sched
pub mod Proc
pub mod Memory
pub mod Screen
pub mod Strings
pub mod Lock
pub mod Sync
pub mod BootImage
pub mod Tokens
pub mod Fs
pub mod Syscall
pub mod Irq
pub mod Shell
pub mod Mailbox
pub mod Net
pub mod Boot
