-- ===== src/Lib.antt =====
-- OS_Lab_Project has two programs: Group6_Project2 simulates scheduling algorithms for several
-- CPUs, and Group6_Project1 is an xv6 kernel with added system calls.
--
-- The simulator. main.c reads the processes and calls one run_ function, which simulates up to
-- MAX_TIME units of time and prints. The parts:
--   Sched                scheduler.h: the structs, the searches by pid, the loops over processes
--                        and CPUs, the main loop
--   Sched/Policy         the round that run_fcfs, run_mlfq, run_edf and run_lottery share, over a
--                        record of what each does differently; Laws says what such a policy has to
--                        satisfy, Phases, Round and Run follow from that
--   Sched/Fcfs           fcfs.c, with the sort of its processes
--   Sched/Mlfq           mlfq.c
--   Sched/Edf            edf.c, with its preemption
--   Sched/Lottery        lottery.c; `rand` is a parameter, a function of the number of the call
--   Sched/Rms            rms.c; which CPU a task is assigned to is part of the input, the code
--                        computes it in floating point; the arrays of the tasks are one list, and
--                        a sum that overflows an int is `none`
--   Sched/Steal          work_steal.c: the queues, the balancing, the thefts, the run; its waiting
--                        times leave out the I/O wait
-- Each file has one function per step of a round, for one CPU. `is_running`, the locking array, is
-- a list of Booleans, and the world is passed from step to step. An array access out of range is
-- `none`, so that a theorem that a run returns says that there was none. C's `int` is an integer
-- without bounds, but in Sched/Rms; the sums of the lottery, for one, leave the range of an int
-- only for priorities near its end. The main loops run on fuel, of which MAX_TIME is enough: each
-- round takes one unit of time, and the loop ends at MAX_TIME by its own test. The theorems about
-- whole runs ask for valid input (IsInput): the pids differ and none is -1, every process has time
-- to run, and there are no more processes than `is_running` has entries.
--
-- The kernel, in Group6_Project1/kernel. A function that holds a lock is one step; where it
-- sleeps, the step ends. Where a power cut or a step of another process may come between, there is
-- a type of outcomes (Log) or a step relation (Log/Space, Proc/Family, Semaphore/Interleaving),
-- and the theorems are about all its runs. `copyin` and `copyout` are parameters of what uses
-- them. A system call that takes several locks in turn, as kfork and kexit do, is one step too:
-- what others see between the locks, such as a new entry that has no parent yet, is not modelled.
--   Kernel/Pipe          pipe.c
--   Kernel/Log           log.c: the write-ahead log of the file system. The contents of a block are
--                        of any type, `bread` gives the cached contents, and the power lasts for
--                        a number of writes of the disk, after which only the disk is left
--   Kernel/Bytes         memset, memmove, memcpy and memcmp of string.c; a pointer is an index into
--                        the memory
--   Kernel/Strings       the string functions of string.c, on arrays of their own
--   Kernel/Proc          proc.c: sleeping, waking, killing, scheduling; Life and Exit have fork and
--                        clone, exit, wait and waitpid. A process is an index into the table; what
--                        these functions call of kalloc.c, vm.c, file.c and fs.c is a record of
--                        operations on a state of its own
--   Kernel/Psinfo        psinfo of proc.c
--   Kernel/Mailbox       sys_sendmsg and sys_recvmsg of sysproc.c
--   Kernel/Alarm         sys_alarm, the timer interrupt of usertrap in trap.c, alarm_return of
--                        proc.c, and how syscall of syscall.c stores its result in a0
--   Kernel/Semaphore     sys_sem_wait and sys_sem_post of sysproc.c; Interleaving has the step
--                        relation of all threads, Bytes a user memory of bytes as an instance. A
--                        value is an int, and adding one to the greatest gives the least
--
-- The user programs, in Group6_Project1/user:
--   User/Grep            the matcher of grep.c
--
-- Not modelled: input and printing (main.c, metrics.c), the floating point of rms.c, the memory,
-- file and device parts of the kernel, its other system calls, and the other user programs.
pub mod Prelude
pub mod Sched
pub mod Kernel
pub mod User
