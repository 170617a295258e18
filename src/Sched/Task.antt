-- ===== src/Sched/Task.antt =====
-- What Project_2/stuff/sched.c takes from the kernel's headers, which are not in the repository,
-- and the part of `struct task_struct` that it reads and writes.
use os_design.Prelude.{ℕ, ◌≡◌, ◌≢◌, Option, bit_and, bit_or}
use os_design.Prelude.Int.{ℤ}

-- The constants of <linux/sched.h> and <linux/wait.h>, with what the code relies on: the policies
-- differ, the flag `SCHED_YIELD` is in none of them and stays when it is added to the ordinary one,
-- and `TASK_RUNNING` meets no mask.
pub record Headers : Type 0 where
  pub sched_other : ℕ
  pub sched_fifo : ℕ
  pub sched_rr : ℕ
  pub sched_yield : ℕ
  pub task_running : ℕ
  pub task_interruptible : ℕ
  pub task_uninterruptible : ℕ
  pub wq_flag_exclusive : ℕ
  pub proc_change_penalty : ℕ
  pub fifo-ne-other : sched_fifo ≢ sched_other
  pub rr-ne-other : sched_rr ≢ sched_other
  pub fifo-ne-rr : sched_fifo ≢ sched_rr
  pub other-yield : bit_and sched_other sched_yield ≡ 0
  pub fifo-yield : bit_and sched_fifo sched_yield ≡ 0
  pub rr-yield : bit_and sched_rr sched_yield ≡ 0
  pub or-yield : bit_and (bit_or sched_other sched_yield) sched_yield ≢ 0
  pub running-mask : (mode : ℕ) → bit_and task_running mode ≡ 0

-- Pointers to other structures are their addresses; `none` is NULL.
pub record Task : Type 0 where
  pub state : ℕ
  pub policy : ℕ
  pub counter : ℤ
  pub nice : ℤ
  pub rt_priority : ℕ
  pub need_resched : ℤ
  pub processor : ℕ
  pub cpus_runnable : ℕ
  pub cpus_allowed : ℕ
  pub mm : Option ℕ
  pub active_mm : Option ℕ
  pub uid : ℕ
  pub euid : ℕ
