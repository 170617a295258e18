-- ===== src/Sched/Samples.antt =====
-- Linux's values of the constants, and two tasks, at which the theorems on sched.c are applied.
use Prim.Native.Nat.{bit_and-bitwise}
use os_design.Prelude.{ℕ, false, ◌≡◌, ◌≢◌, refl, some, bit_and, bit_or, arith}
use os_design.Prelude.Int.{pos}
use os_design.Sched.Task.{Headers, Task}
use os_design.Sched.Idle.{Cpus}
use os_design.Sched.Goodness.Laws.{IsSane}

pub running_mask : (mode : ℕ) → bit_and 0 mode ≡ 0
running_mask mode = bit_and-bitwise 0 mode

pub one-ne-zero : ◌≢◌ {A = ℕ} 1 0
one-ne-zero = omega arith

pub two-ne-zero : ◌≢◌ {A = ℕ} 2 0
two-ne-zero = omega arith

pub one-ne-two : ◌≢◌ {A = ℕ} 1 2
one-ne-two = omega arith

pub sixteen-ne-zero : bit_and (bit_or 0 16) 16 ≢ 0
sixteen-ne-zero = omega arith

abbrev pub linux : Headers
linux = record {
  sched_other = 0;
  sched_fifo = 1;
  sched_rr = 2;
  sched_yield = 16;
  task_running = 0;
  task_interruptible = 1;
  task_uninterruptible = 2;
  wq_flag_exclusive = 1;
  proc_change_penalty = 15;
  fifo-ne-other = one-ne-zero;
  rr-ne-other = two-ne-zero;
  fifo-ne-rr = one-ne-two;
  other-yield = refl;
  fifo-yield = refl;
  rr-yield = refl;
  or-yield = sixteen-ne-zero;
  running-mask = running_mask;
}

abbrev pub shell : Task
shell = record {
  state = 0;
  policy = 0;
  counter = pos 6;
  nice = pos 0;
  rt_priority = 0;
  need_resched = pos 0;
  processor = 0;
  cpus_runnable = 1;
  cpus_allowed = 3;
  mm = some 100;
  active_mm = some 100;
  uid = 1000;
  euid = 1000;
}

abbrev pub audio : Task
audio = record shell { policy = 1; rt_priority = 50; mm = some 200; active_mm = some 200 }

pub shell-IsSane : IsSane shell
shell-IsSane = record { nice_low = omega arith; nice_high = omega arith; ticks = omega arith }

-- One processor.
abbrev pub single : Cpus
single = record {
  smp = false;
  num_cpus = 1;
  logical_map = λ c. c;
  idle_task = λ c. 0;
  num_siblings = 1;
  sibling_map = λ c. c;
  cycles_max = 1000;
  this_cpu = 0;
}
