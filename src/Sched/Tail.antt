-- ===== src/Sched/Tail.antt =====
-- Project_2/stuff/sched.c: `__schedule_tail` and `schedule_tail`, which end the switch from a task,
-- and `yield` and `__cond_resched`, which begin one. `task_release_cpu` and `task_has_cpu` of the
-- kernel's headers are parameters; between the two tests of `prev->state` nothing else runs.
pub mod Laws
mod Tests
use os_design.Prelude.{ℕ, Bool, true, ◌&&◌, ◌||◌, not, ◌==◌, if◌then◌else◌, bit_and}
use os_design.Prelude.Bits.{and_not}
use os_design.Sched.Task.{Headers, Task}
use os_design.Sched.Idle.{Cpus, Kernel, put, reschedule_idle}
use os_design.Sched.Policy.{Env}
use os_design.Sched.Policy.Yield.{sys_sched_yield}

module _ (h : Headers) (cpus : Cpus) (task_release_cpu : Task → Task)
    (task_has_cpu : Task → Bool) where
  -- `prev->policy = policy & ~SCHED_YIELD`.
  pub unyield : Task → Task
  unyield prev = record prev { policy = and_not prev.policy h.sched_yield }

  -- Whether the label `needs_resched` asks for a processor, with the policy that was read first.
  pub needs_resched : Task → ℕ → ℕ → Bool
  needs_resched released prev policy =
      released.state == h.task_running
      && (not (prev == cpus.idle_task cpus.this_cpu || not (bit_and policy h.sched_yield == 0))
          && not (task_has_cpu released))

  pub schedule_tail : Kernel → ℕ → Kernel
  unfolding unyield needs_resched
  schedule_tail k prev =
      let policy = (k.task prev).policy in
      let released = task_release_cpu (unyield (k.task prev)) in
      let k' : Kernel = record k { task = put k.task prev released } in
      if cpus.smp
      then (if needs_resched released prev policy then reschedule_idle h cpus k' prev else k')
      else record k { task = put k.task prev (unyield (k.task prev)) }

  -- `set_current_state(TASK_RUNNING)`.
  abbrev pub set_running : Kernel → ℕ → Kernel
  set_running k p = record k { task = put k.task p (record (k.task p) { state = h.task_running }) }

  module _ (env : Env) (schedule : Kernel → Kernel) where
    pub yield : Kernel → Kernel
    yield k = schedule (sys_sched_yield h cpus env (set_running k env.current)).0

    pub cond_resched : Kernel → Kernel
    cond_resched k = schedule (set_running k env.current)
