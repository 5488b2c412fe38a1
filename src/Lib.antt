-- ===== src/Lib.antt =====
-- The four exercises: restricted system calls with a log (HW1), the scheduler with short tasks, the calls
-- of sys.c and the making of processes (HW2), the game of life with threads (HW3), and two allocators (HW4).
--
-- Parts and files
-- - Restrict: `syscall_check` of HW1/kernel/restrict.c (Restrict/Check) runs before every system call
--   of a task and writes to its log; the calls of HW1/arch/i386/kernel/hw1_syscalls.c (Restrict/Calls)
--   install the rules it reads and hand the log to the user. Restrict/Task has the structs `scr` and
--   `fai` and the added fields of `task_struct` (HW1/include/linux/sched.h), with what HW1/kernel/fork.c
--   and exit.c do to them. The theorems are in Restrict/Checked, Reported, Recent and Installed, over
--   the ring in Restrict/Ring.
-- - Sched: HW2/kernel/sched.c with the fields of HW2/include/linux/sched.h. Sched/Task has the
--   arithmetic of priorities, Sched/Queue the run queue (`enqueue_task`, `dequeue_task`), Sched/Wake
--   `activate_task` to `sched_exit`, Sched/Tick `scheduler_tick`, Sched/Pick `schedule`, Sched/Nice
--   `set_user_nice` and `sys_nice`, Sched/Policies `setscheduler`, Sched/Queries the two calls on
--   short tasks, Sched/Yield `sys_sched_yield`, Sched/Waiting `__wake_up_common`, Sched/Setprio
--   `sys_setpriority` and `sys_getpriority` of HW2/kernel/sys.c, which call `set_user_nice`.
--   Sched/Consistent and Sched/Invariant say when a run queue is valid: each task stands once, in
--   the array and queue its fields name, or nowhere; below MAX_PRIO the bitmaps mark the queues in use,
--   and the delimiting bit at MAX_PRIO is free to be set; short tasks stand in the short array and no
--   others do; priorities are in range, but the idle task's, which `init_idle` sets to MAX_PRIO. The
--   other modules hold the theorems on each operation.
-- - Fork: HW2/kernel/fork.c. Fork/Pids has `get_pid`, Fork/Making `do_fork`, which calls it and
--   `scheduler_tick` and `wake_up_forked_process` of Sched. The theorems are in Fork/Unused and Forked.
-- - Creds: the user and group numbers and the capabilities of a process, in HW2/kernel/sys.c. Creds/User
--   and Creds/Group have the calls that set the numbers, Creds/Member the supplementary groups.
-- - Sessions: process groups and sessions (Sessions/Groups) and resource limits (Sessions/Limits) of
--   HW2/kernel/sys.c.
-- - Notify: the notifier chains of HW2/kernel/sys.c. Settings: the host names (Settings/Host), and `prctl`
--   and `umask` (Settings/Process) of the same file.
-- - Life: HW3. Life/Cells has `calculate_live_neighbours` and `calculate_next_generation_matrix` of
--   HW3/Life_Thread.cpp; Life/Plan the jobs that `Game::_step` of HW3/Game.cpp makes and the work on
--   one of them, Life/Crew the main thread that pushes them and waits for `m_thread_num` of them to be
--   counted, and the worker threads that pop them. Life/Neighbours and Life/Filled say what a generation
--   is to be, Life/Manned which worker has which job.
-- - Queue: HW3/PCQueue.hpp. Queue/Monitor has `push` and `pop`, with the lock and the two conditions, as
--   steps of any number of threads. The invariant is in Queue/Kept. Life/Crew uses the queue as what
--   these theorems make of it: first in, first out, with `pop` waiting for an item.
-- - Alloc: HW4/malloc_2.cpp, the list of blocks that is searched for the first fit (Alloc/FirstFit) over
--   the memory and `sbrk` (Alloc/Memory). Alloc/Blocks and Alloc/Laid say when a heap is valid,
--   Alloc/Headers where its headers stand.
-- - Merging: HW4/malloc_3.cpp, which splits blocks, joins free neighbours and grows the last block.
--   Merging/Nodes has the work on single nodes, Merging/Calls the four calls, on the heap of Alloc;
--   Merging/Whole says when a heap is whole.
-- - Common: tests on numbers, C's signed integers, lists by native length.
--
-- Conventions
-- - A task is a record, the tasks are a list (HW1: the chain of the pid hash) or a function of a
--   task's number (HW2). A pointer to memory of a task is `null`, `freed` or a `block`; an access that
--   C does not allow gives `none`. A pointer to a priority array is the array's number.
-- - A call returns its result, 0 or a negated error number, with the state after it.
-- - Threads are a step relation on the state of all of them: one thread takes one step, and any may be
--   next. What holds of every run holds in whatever order they are scheduled.
-- - `unsigned` counters wrap at 2 ^ 32 where the code counts down or takes differences of times. The
--   count of refusals in HW1 is an int that nothing bounds: to count past 2 ^ 31 - 1 gives `none`. Other
--   numbers of type `int` are integers without bound. A reply of `get_process_log` says whether the
--   kernel's buffer was overrun, after which C promises nothing. `sizeof` products wrap at 2 ^ 32 in HW1
--   and at 2 ^ 64 in HW4.
-- - Loops recurse on what is left of their list, lines or array. `get_pid` goes back to a label and runs
--   on fuel, as many rounds as there are numbers; that these are enough is proved.
-- - A heap is the list of its blocks, in the order of the addresses, with the counters, the bytes
--   and the end of the memory; a header lies in front of each block, in `meta` bytes, and each change
--   of the list stores the headers into the memory. Which bytes they then have is a parameter,
--   `image`, for any value of which the theorems hold. The first node is found free or in use by what
--   the memory holds there, as the code does not write it.
-- - `kmalloc`, `copy_from_user`, `capable`, `find_process_by_pid`, `alloc_uid`, `find_first_bit`, `sbrk`,
--   the copies of kernel objects in `do_fork`, `jiffies` and HZ are parameters; those with laws are
--   `find_first_bit`, which gives the first bit that is set or MAX_PRIO, and `sbrk`, which moves the end
--   of the memory by what is asked for, or fails.
--
-- Not modelled: more than one processor (CONFIG_SMP: load balancing, migration), the kernel's locks,
-- `kstat`, affinity, the calls that put the current task to sleep on a wait queue, the times and the
-- reboot of sys.c, the copies of kernel objects in fork and the rest of exit, and assembly. Of HW3
-- the text helpers, the printing, the measuring of time, the semaphore, which nothing uses, and
-- pthreads themselves; of HW4 malloc_1.cpp, which is one call of `sbrk`. `schedule` is one round, up
-- to the switch of the stacks. The first task, whose short priority is -1, has 0 there; it is never
-- short.
pub mod Common
pub mod Restrict
pub mod Sched
pub mod Creds
pub mod Sessions
pub mod Life
pub mod Notify
pub mod Settings
pub mod Alloc
pub mod Merging
pub mod Fork
pub mod Queue
