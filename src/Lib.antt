-- ===== src/Lib.antt =====
-- ZeOS, the teaching kernel in practica/zeos of this repository, as functions on explicit state.
--
-- The parts, the files that model them, and the code:
-- - Prelude: Boolean tests on numbers, lists by index, signed integers, counted loops.
-- - Layout: where the linker puts the tables (practica/zeos/system.lds), a parameter of what computes
--   with pointers, and what the code relies on about it (IsLaidOut).
-- - Links: list.c and include/list.h. The two fields of a `struct list_head` are two maps from
--   addresses; an access through a null pointer is a fault. Links/Queue says which nodes hang on a
--   head; Insert, Remove and Walk are about the operations.
-- - CBuffer: c_buffer.c, the keyboard's ring buffer, refined to a bounded queue in CBuffer/Refine.
-- - Mm: mm.c. Mm/Frames is the byte map `phys_mem`; Mm/Paging the entries of directories and tables,
--   one map from addresses, by their bit fields.
-- - Io: io.c and devices.c, the text screen: cursor, colour, video memory by cell, and the bytes that
--   went to the debug port.
-- - Libc: `itoa`, `strlen` and `perror` of libc.c, on strings as maps from indices.
-- - Utils: utils.c, copies between kernel and user by words and bytes, `access_ok`, and the division
--   of the time stamp counter.
-- - Kernel: the globals and the task structs of sched.c, sys.c and interrupt.c in one record, the
--   registers that the code sets, `current`, and the accounting of p_stats.c. A command of type Cmd
--   takes the kernel to a result and a kernel, or faults.
-- - Sched: sched.c. `schedule` and `force_task_switch` take tasks on and off the queues of Links,
--   charge time with Utils, and switch stacks. Sched/Spec is the round robin that they promise,
--   Sched/Inv says when a kernel stands for it, Sched/Refine and Sched/Tick are about one step,
--   Sched/Fair about runs, and Sched/Boot is the set-up of queues and first tasks.
-- - Sys: sys.c, the system calls for console, keyboard and screen, in Sys/Shm those for shared memory,
--   in Sys/Fork and Sys/Process the start and the end of a process, in Sys/Stats its statistics. They
--   check user addresses with Utils and the current task's table of Mm/Paging.
-- - Interrupt: interrupt.c. The keyboard's routine fills the buffer of CBuffer that `sys_read` empties;
--   the clock's calls `schedule`; Interrupt/Gates is the descriptor table. Interrupt/PageFault is the copy on
--   write, on memory by physical address, with Mm and the copy of Utils.
-- - Boot: paging and the segment tables of mm.c at the start, and `init_shared_memory` of sched.c.
-- - Game: game.c, the user's program. Game/Search is `bfs` (Marks, Levels and
--   Order are about its marks and its queue), Game/Maze the maze and the start,
--   Game/Draw what is drawn, as a log of system calls, Game/Moves the moves of pacman and phantoms,
--   Game/Turn the loop of `start_game` and the keyboard's process, which hands it one direction at a
--   time through a shared word. The list of moves is one of Links. Game/Inv says when a game is in
--   order, Game/Reach which states the loop goes through.
-- - Older: the console, `access_ok` and `sys_write` of the older version in zeos (utils.c, io.c,
--   devices.c, sys.c), on the copies of Utils.
--
-- Names follow the code, in lower case: `list_add_between` is `__list_add`, `list_del_between` is
-- `__list_del`. Addresses and unsigned numbers are natural numbers with the wrap at their width
-- written out where a result can reach it; `int` is ℤ. Overflow of an `int` counter is not modelled.
--
-- Stacks and the switch: `switch_stack` saves the frame pointer `ebp` of the task that is left and goes
-- on with the saved one of the other. The model's commands take that `ebp` as an argument and keep the
-- page of the stack that the processor is on; `current` is that page. The theorems ask that `ebp` lies
-- on the current task's stack.
--
-- Loops: `list_for_each` and `list_for_each_from` run on fuel, of which one round more than the
-- list has nodes is enough. The loop of `alloc_frame` has 385 rounds, half of the 768 frames from
-- 256 on and the last test; those of both versions of `sys_write` and of the copies have as many
-- rounds as there are bytes, of which each round takes at least one; the search of `sys_shmat` has
-- one for each page. `bfs` has one round for each place of the maze and one more, since it queues
-- each place once; the game's wait runs on fuel, of which the number of clock readings within which
-- the clock moves on by more than 20 is enough.
--
-- Outside the code: the library's clock on the screen and its table of exception handlers (libzeos.a)
-- are parameters, as are the readings of the time stamp counter, the bytes from the keyboard's port,
-- and what stands behind an array that the code reads past its end.
--
-- Not modelled: assembly (entry points, register saves, boot sector), port and register input and
-- output of hardware.c, the order of start-up in system.c beyond what Sched/Boot states, `main` of
-- user.c, and of the older version all but its console and `sys_write`. The task structs are kept apart
-- from the bytes of memory, so a system call that is given an address within one does not change it.
pub mod Prelude
pub mod Layout
pub mod CBuffer
pub mod Links
pub mod Mm
pub mod Io
pub mod Libc
pub mod Utils
pub mod Kernel
pub mod Sched
pub mod Sys
pub mod Game
pub mod Older
pub mod Interrupt
pub mod Boot
