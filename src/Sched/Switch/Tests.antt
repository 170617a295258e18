-- ===== src/Sched/Switch/Tests.antt =====
-- A kernel thread that runs with a shell's memory and is chosen again.
use os_design.Prelude.{ℕ, ◌==◌, if◌then◌else◌, ◌≡◌, ◌≢◌, refl, none, some, arith}
use os_design.Prelude.Int.{pos, ◌-ℤ◌}
use os_design.Sched.Task.{Task}
use os_design.Sched.Samples.{shell}
use os_design.Sched.Switch.{Switch, switched, switch_task}
use os_design.Sched.Switch.Settled.{IsSettled}
use os_design.Sched.Switch.Cases.{SetsCpu}
use os_design.Sched.Switch.Loan.{on_loan}
use os_design.Sched.Switch.Laws.{switch_task-IsSettled}

abbrev set_cpu : Task → ℕ → Task
set_cpu t cpu = record t { processor = cpu }

abbrev kernel_thread : Task
kernel_thread = record shell { mm = none; active_mm = some 100 }

abbrev lazy : Switch
lazy = record {
  task = λ q. if q == 5 then kernel_thread else shell;
  current = 5;
  mm_count = λ m. pos 2;
  context_swtch = 0;
}

lazy-IsSettled : IsSettled lazy
lazy-IsSettled = record {
  waiting = λ q ne. ground (arith, ne);
  memory = 100;
  active = refl;
  own = λ m e. ground (arith, e);
}

set_cpu-SetsCpu : SetsCpu set_cpu
set_cpu-SetsCpu = record { keeps_mm = λ t cpu. refl; keeps_active = λ t cpu. refl }

five-ne-one : lazy.current ≢ 1
five-ne-one e = absurd (omega (arith, e))

switch_task-IsSettled_example :
    (u : Switch) × (switch_task set_cpu lazy 1 ≡ switched u)
    × IsSettled u
    × (u.current ≡ 1)
    × ((m : ℕ) → 100 ≢ m → u.mm_count m ≡ lazy.mm_count m)
    × ((m : ℕ) → u.mm_count m -ℤ on_loan u m ≡ lazy.mm_count m -ℤ on_loan lazy m)
unfolding lazy-IsSettled
switch_task-IsSettled_example =
    switch_task-IsSettled set_cpu set_cpu-SetsCpu lazy lazy-IsSettled 1 five-ne-one
