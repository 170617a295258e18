-- ===== src/Lib.antt =====
-- The programs of three projects on operating systems, in C, and what makes them correct.
--
-- The parts:
--   * Project_1/Stuff computes the transitive closure of a directed graph. A file gives the graph,
--     threads (wtc_thr.c, wtc_btthr.c) or processes (wtc_proc.c, wtc_btproc.c) share the work, and
--     the matrix is printed.
--   * Project_2/stuff/sched.c is the scheduler of a Linux kernel of the series 2.4, in which
--     `schedule` has been changed to share the processor among users.
--   * Project_3 has a FUSE file system with one file (network.c, and hello.c with the same bodies),
--     and a client and a server that pass a file system's operations over a socket.
--
-- Which file models what:
--   * Prelude passes on the library's names. Prelude/Tests has the Boolean tests on numbers,
--     Prelude/Lists arrays as lists, Prelude/Int the integers with the order on their parts,
--     Prelude/Sums sums over threads, Prelude/Bits `a & ~b`.
--   * Closure/BitArray: `bit_array_create`, `bit_array_set`, `bit_array_get` of
--     Project_1/Stuff/bit_char.c, on the list of the block's bytes. Closure/Grid: the matrix that is
--     packed into such an array. Closure/Walks: paths, and the recurrence of Warshall's algorithm,
--     the specification that the closure programs are compared with.
--   * Closure/ReadFile: `read_file` of Project_1/Stuff/functions.c. A file is the list of its words
--     and whether something follows the last; the result says if the program exited or wrote outside
--     the matrix.
--   * Closure/Threads: Project_1/Stuff/wtc_thr.c as a step relation. A state is the matrix, the
--     global `k`, and where each thread and `wtc_thr` stand; a step is one turn of a thread, a turn
--     of `wtc_thr`, or the opening of a barrier. Its children have the invariant of a thread and of a
--     round, the theorems on whole runs, and the rows that are left over.
--   * Closure/Processes: Project_1/Stuff/wtc_btproc.c. A step is a `queuePop` or the update of a
--     column, which the two semaphores make indivisible; rounds follow each other at the barriers.
--     Closure/Processes/Found is the matrix between two rounds, shared with Closure/Blocks.
--   * Closure/Blocks: Project_1/Stuff/wtc_proc.c, in which each child has a block of columns.
--     Closure/Layout: where the parts of the shared memory of both programs stand. Closure/IntFile:
--     `openMatrix` and `readMatrix`, which read the file of both.
--   * Closure/Bag: Project_1/Stuff/wtc_btthr.c, in which threads take rows from a counter, as a step
--     relation like that of wtc_thr.c. Bag/Low has the rows that are written, Bag/Work a round,
--     Bag/Phases and Bag/Joined whole runs, and Bag/Alone a run to its end.
--   * Closure/Flip: the barrier of Project_1/Stuff/wtc_proc_test.c, a count and a flag in shared
--     memory, as a step relation on children and parent. Flip/Turns and Flip/Steps
--     have the turns of the flag, Flip/Work and Flip/Ends the work that is left.
--   * Closure/Output: `print_matrix` and `print_matrix2`. Closure/Programs: the `switch` of
--     Project_1/Stuff/wtc.c and the four programs from the file to the output.
--   * Sched/Task and Sched/Samples: the constants of the kernel's headers with what the code relies
--     on, and an instance with Linux's values. Sched/Choose: the choice of a task in `schedule`.
--     Sched/Goodness: `goodness`, `preemption_goodness`. Sched/Idle: `reschedule_idle`. Sched/Wake:
--     the run queue, `try_to_wake_up`, `__wake_up_common` and its callers. Sched/Policy: `sys_nice`
--     and the calls on policies, with Policy/Yield for `sys_sched_yield` and Policy/Interval for
--     `sys_sched_rr_get_interval`. Sched/Switch: the end of `schedule`. Sched/Tail:
--     `schedule_tail`, `yield` and `__cond_resched`. Sched/Timeout: `schedule_timeout`. Sched/Sleep:
--     the four `sleep_on` functions. Sched/Completion: `wait_for_completion`, with the tasks that
--     wait and complete as a step relation. Sched/Affinity: `set_cpus_allowed`. Sched/Signals:
--     `render_sigset_t`.
--   * Remote/Hello: the operations of Project_3/network.c. Remote/Socket: what is taken from `recv`.
--     Remote/Requests: the bytes of the requests
--     of Project_3/client.c and their handling in Project_3/server.c. Remote/Chunks: the loops of
--     `server_read` and `client_read`. Remote/System: the answers and what the client makes of them,
--     so that an operation of the client is a function of the server's files; Remote/System/Local is
--     the same operation on these files without client and server, and Remote/System/Messages
--     has the answers as the client reads them.
--   Modules called Tests hold concrete runs.
--
-- How the parts interact: the threads and processes read the matrix that `read_file` makes;
-- `try_to_wake_up` puts a task on the run queue and asks `reschedule_idle` for a processor, which
-- compares tasks by `preemption_goodness`; `sys_sched_yield` sets the flag that `goodness` reads; the
-- packets of `server_read` are the input of `client_read`; `wait_for_completion` sleeps on the queue
-- that `complete` hands to `__wake_up_common`; the `sleep_on` functions with a timeout do what
-- `schedule_timeout` does.
--
-- Numbers: where a theorem reads the matrix from a file, n * n < 2 ^ 31 is a hypothesis, and an index
-- is converted to `unsigned` modulo 2 ^ 32. The step relations of the closure programs compute the
-- indices of a matrix that is there with numbers without bound, and the barriers of wtc_proc.c and
-- wtc_btproc.c are taken to work, wherever Closure/Layout finds them. Counters of tasks and of the run
-- queue are unbounded. Bytes are kept below 256 by the store, `jiffies`, `size_t` and `off_t` are of
-- 64 bits, and `totalsize` of `client_read` is an `int` whose overflow is a result of its own.
--
-- The connection of client and server is a stream: what the calls of `recv` give of what was sent is a
-- parameter of Remote/Chunks and Remote/System. That each `recv` takes all of one `send`, as the
-- client and the server rely on, is the hypothesis IsWhole of Remote/Socket; Remote/Chunks/Cut is
-- about a packet that comes in two pieces.
--
-- Fuel: `read_pairs` takes one unit for each pair of the file and two more are enough;
-- `choose_task` takes one for each jump, and three passes are enough when root has a process;
-- `server_read` takes one for each 4096 bytes and one more; `set_cpus_allowed` takes one more than the
-- calls of `schedule` after which the task is on a legal processor.
--
-- Parameters: the headers' constants and maps (Headers, Cpus), the tables of tasks, capabilities and
-- copies from and to user space (Env, Param), `task_set_cpu`, `task_release_cpu` and `task_has_cpu`,
-- `schedule` where a function sleeps in it, the files of the server (Files), the size of
-- `struct stat`, `pread`, what `recv` gives, and the values of `jiffies`.
--
-- Not modelled: clocks, memory that is freed, sockets and the creation of threads and processes; the
-- other earlier versions and test programs in Project_1, and Project_1/Stuff/OS_Project1, which repeats its
-- files; in sched.c the reports (`show_task`, `show_state`) and the start of the
-- scheduler (`reparent_to_init`, `daemonize`, `init_idle`, `sched_init`). A write that C leaves
-- undefined is not given a meaning: the models say where it happens, or the theorems exclude it. A
-- thread of wtc_btthr.c that reads its row before it has taken one is lost in the model and does
-- nothing more, so that a run that joins has no such thread.
pub mod Prelude
pub mod Closure
pub mod Sched
pub mod Remote
