-- ===== src/Sched/Tail/Tests.antt =====
-- The end of the switch from a task that had yielded, on two processors.
use os_design.Prelude.{◌-◌, ◌^◌, ◌==◌, Bool, not, refl, [], ◌∷◌, true}
use os_design.Sched.Samples.{linux, shell, single}
use os_design.Sched.Task.{Task}
use os_design.Sched.Idle.{Cpus, Kernel}
use os_design.Sched.Tail.{schedule_tail}
use os_design.Sched.Tail.Laws.{Releases, Ended, schedule_tail-Ended}

abbrev pair : Cpus
pair = record single { smp = true; num_cpus = 2 }

-- `cpus_runnable` is ~0UL when the task has no processor.
abbrev free_cpu : Task → Task
free_cpu t = record t { cpus_runnable = 2 ^ 64 - 1 }

abbrev has_cpu : Task → Bool
has_cpu t = not (t.cpus_runnable == 2 ^ 64 - 1)

free_cpu-Releases : Releases linux pair free_cpu has_cpu
free_cpu-Releases = record { policy = λ t. refl; state = λ t. refl }

abbrev yielded : Kernel
yielded = record {
  task = λ q. record shell { policy = 16 };
  queue = 1 ∷ 2 ∷ [];
  nr_running = 2;
  curr = λ c. 2;
  last = λ c. 0;
  sent = [];
}

schedule_tail-Ended_example :
    Ended linux pair free_cpu has_cpu yielded 1
      (schedule_tail linux pair free_cpu has_cpu yielded 1)
schedule_tail-Ended_example =
    schedule_tail-Ended linux pair free_cpu has_cpu yielded 1 free_cpu-Releases
