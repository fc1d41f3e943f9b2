-- ===== src/Lib.antt =====
-- KOS, a small kernel for 32-bit x86: models and proofs of its core.
--
-- Descriptor.antt models gdt/gdt.c, ldt/ldt.c and `idt_set_gate` of idt/idt.c: the bytes of a segment
-- descriptor and of a gate, and the allocation of entries of the global table.
-- Proc.antt models the structs of include/proc.h, include/msg.h and include/task.h, the kernel's state
-- (record `Kernel`), and the process table of proc/proc.c; Proc/Create.antt models `new_init_proc`,
-- `new_task_proc` and `new_user_proc`. The addresses that the linker gives are the record `Layout`.
-- Msg.antt models msg/msg.c. A process waits in the queue of another through its own `msg_next`; a
-- predicate `Chain` relates these pointers to a list of processes.
-- Sched.antt models `proc_line_schedule` of proc/sched.c and the system calls of
-- sys/proc/sys_call_proc.c, which send and receive messages through Msg.antt and then choose another
-- process. Sched/Tasks.antt models `task_line_schedule` and `add_new_task` of proc/task.c, which make
-- processes of waiting tasks through Proc/Create.antt.
-- Pmm.antt models mm/pmm.c, the stack of free pages; Vmm.antt models mm/vmm.c, which takes the pages of
-- its tables from it.
-- Console.antt models driver/console.c, Keyboard.antt models driver/keyboard.c.
-- Fs.antt and the modules below it model fs/mk.c, fs/read.c, fs/write.c and the structs of include/fs.h:
-- Fs/Map.antt the two bitmaps, Fs/Inode.antt inodes and directory entries, Fs/Make.antt the creation of
-- files and directories.
-- Fs/Mkfs.antt models the installation and the start of the file system in fs/fs.c and the request for a
-- directory of fs/opt.c, on top of Fs/Make.antt. Fs/Request.antt models the messages that the task of
-- the file system answers, with the other two requests of fs/opt.c.
-- Hd.antt models driver/hd.c: Hd/Command.antt what the controller is told, Hd/Table.antt the partitions.
-- Format.antt models libs/number.c and `number` of kernel/printk.c, Format/Template.antt `vsprintf`.
-- Strings.antt models libs/string.c.
-- Shell.antt models the command line of shell/shell.c. Tty.antt models tty/tty.c: it prints through
-- Format/Template.antt on the screen of Console.antt and gives its lines to Shell.antt. What a command of
-- the shell does is an argument of the terminals, as the table of function pointers has it. Tty/Start.antt
-- models `init_tty` and tty/ui.c.
-- ShellFs.antt and the modules below it model shell/shell_fs.c, the commands `mkdir`, `mkfile`, `ls` and
-- `cd`, which send their requests to Fs/Request.antt and keep a listing in the terminal. A predicate
-- `Lists` relates that memory to a list of entries, and `IsDir` the sectors of a directory on the disk.
-- Irq.antt models the interrupt table of idt/idt.c, the clock of driver/timer.c, which calls the two
-- schedulers of Sched.antt, and the table of sys/syscall.c.
-- Common.antt holds what they share: arrays as functions of the index, Boolean tests, bit operations.
--
-- Numbers are native naturals with the wrap-around of their C type written out; `int` values that may be
-- negative are `ℤ` of Common/Int.antt. Pointers into arrays are indices, NULL is `none`. `none` as a
-- result is undefined behaviour of the source, or a loop that has not ended within its fuel. The walks of
-- message queues have 11 rounds, one more than there are processes; the line scheduler has 10, once round
-- the table; `alloc_pmm` has one round more than bytes, as a round takes a page; `init_pmm` has two more
-- than there are pages up to 512 MB, where its loop stops. Arrays have no end in the models, except where
-- a definition tests a bound.
--
-- A template of `vsprintf` has as many rounds as characters, which is enough as each takes one; a chain
-- of partition tables has as many as the fuel of `hd_get_part_table`, as a chain on a disk may be a ring.
--
-- In ShellFs.antt a string has at most 1024 bytes, which lie inside every buffer that it is read from, and
-- a path at most the 128 bytes of its array. A request is answered before the shell goes on, as it waits
-- for the answer.
--
-- Not modelled: the heap (mm/heap.c), of which the kernel uses `init_heap` alone; the commands of the
-- shell outside shell/shell_fs.c and what else only prints; the message loop of the disk task; the
-- priority scheduler, which compares floating-point numbers; and the code that touches processor
-- registers and ports alone. Access to the disk in Fs.antt is the transfer that `fs_read` and `fs_write`
-- ask of the disk task.
pub mod Common
pub mod Descriptor
pub mod Proc
pub mod Msg
pub mod Sched
pub mod Pmm
pub mod Vmm
pub mod Console
pub mod Keyboard
pub mod Fs
pub mod Format
pub mod Strings
pub mod Shell
pub mod Tty
pub mod ShellFs
pub mod Hd
pub mod Irq
