-- ===== src/Sched/Idle/Tests.antt =====
-- The theorems on `reschedule_idle` on two processors, of which the second is idle.
use os_design.Prelude.{◌-◌, ◌*◌, ◌≡◌, refl, [], ◌∷◌, true, arith, some}
use os_design.Prelude.Int.{◌+ℤ◌, ◌-ℤ◌}
use os_design.Sched.Goodness.{preemption_goodness, goodness, near, lazy}
use os_design.Sched.Task.{Task}
use os_design.Sched.Samples.{linux, shell}
use os_design.Sched.Idle.{Cpus, Kernel, search, no_target, reschedule_idle}
use os_design.Sched.Idle.Search.{Settled, search-settles}
use os_design.Sched.Idle.Laws.{Nudged, reschedule_idle-Nudged}

abbrev twin : Cpus
twin = record {
  smp = true;
  num_cpus = 2;
  logical_map = λ c. c;
  idle_task = λ c. c;
  num_siblings = 1;
  sibling_map = λ c. c;
  cycles_max = 1000;
  this_cpu = 0;
}

-- Task 7 runs on processor 0; processor 1 runs its idle task.
abbrev half_busy : Kernel
half_busy = record {
  task = λ q. shell;
  queue = 7 ∷ [];
  nr_running = 1;
  curr = λ c. 7 - 6 * c;
  last = λ c. 5;
  sent = [];
}

abbrev woken_task : Task
woken_task = record shell { cpus_runnable = 3 }

found_idle : (search linux twin half_busy woken_task 2 0 (no_target linux twin)).target ≡ some 1
unfolding search preemption_goodness goodness near lazy ◌+ℤ◌ ◌-ℤ◌
found_idle = refl

search-settles_example :
    Settled linux twin half_busy woken_task 2
      (search linux twin half_busy woken_task 2 0 (no_target linux twin))
search-settles_example =
    search-settles linux twin half_busy woken_task (omega arith) (λ c. omega arith)

reschedule_idle-Nudged_example : Nudged 0 half_busy (reschedule_idle linux twin half_busy 9)
reschedule_idle-Nudged_example = reschedule_idle-Nudged linux twin half_busy 9
