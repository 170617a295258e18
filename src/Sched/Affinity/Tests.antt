-- ===== src/Sched/Affinity/Tests.antt =====
-- A task on processor 0 that is bound to processor 1, where the next call of `schedule` puts it.
use os_design.Prelude.{◌≡◌, ◌⊎◌, ◌≢◌, refl, [], ◌∷◌, bit_and, arith}
use os_design.Sched.Samples.{shell}
use os_design.Sched.Idle.{Kernel}
use os_design.Sched.Affinity.{bug, allow, on_legal, push, set_cpus_allowed}
use os_design.Sched.Affinity.Laws.{times, Legal, set_cpus_allowed-Legal}

abbrev busy : Kernel
busy = record {
  task = λ q. shell;
  queue = 1 ∷ 2 ∷ [];
  nr_running = 2;
  curr = λ c. 1;
  last = λ c. 0;
  sent = [];
}

abbrev moves : Kernel → Kernel
moves k = record k { task = λ q. record (k.task q) { cpus_runnable = 2 } }

ends_legal : on_legal (times moves 3 1 1 (push moves 3 1 (allow busy 2 (bit_and 6 3)) 2)) 2 ≢ 0
unfolding times push
ends_legal = λ e. absurd (omega (arith, e))

set_cpus_allowed-Legal_example :
    ((bit_and 6 3 ≡ 0) × (set_cpus_allowed moves 3 1 4 busy 2 6 ≡ bug))
    ⊎ ((bit_and 6 3 ≢ 0) × Legal moves 3 1 2 (bit_and 6 3) (set_cpus_allowed moves 3 1 4 busy 2 6))
set_cpus_allowed-Legal_example =
    set_cpus_allowed-Legal moves 3 1 1 4 busy 2 6 (λ k. refl) (omega arith)
      (λ some_online. ends_legal)

-- No processor of the mask is online, whatever `schedule` does.
bound_nowhere : set_cpus_allowed (λ (k : Kernel). k) 3 1 4 busy 2 12 ≡ bug
unfolding set_cpus_allowed
bound_nowhere = refl
