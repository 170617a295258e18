-- ===== src/Sched/Affinity.antt =====
-- Project_2/stuff/sched.c: `set_cpus_allowed`. What `schedule` does before it comes back to the
-- caller is a parameter, and the loop around it has fuel.
pub mod Laws
mod Tests
use os_design.Prelude.{ℕ, zero, suc, Bool, ◌==◌, if◌then◌else◌, bit_and}
use os_design.Prelude.Int.{pos}
use os_design.Sched.Task.{Task}
use os_design.Sched.Idle.{Kernel, put, resched, send}

-- `BUG_ON`, a loop that goes on, or the kernel at the end.
pub data Outcome : Type 0 where
  bug : Outcome
  loops : Outcome
  done : (k : Kernel) → Outcome

-- `p->cpus_runnable & p->cpus_allowed`.
abbrev pub on_legal : Kernel → ℕ → ℕ
on_legal k p = bit_and (k.task p).cpus_runnable (k.task p).cpus_allowed

-- `p->cpus_allowed = new_mask`.
abbrev pub allow : Kernel → ℕ → ℕ → Kernel
allow k p mask = record k { task = put k.task p (record (k.task p) { cpus_allowed = mask }) }

module _ (schedule : Kernel → Kernel) (cpu_online_map current : ℕ) where
  pub wait_legal : ℕ → Kernel → ℕ → Outcome
  wait_legal zero k p = loops
  wait_legal (suc fuel) k p =
      let rest = wait_legal fuel (schedule k) p in if on_legal k p == 0 then rest else done k

  -- The request to reschedule, if the task is not `current`.
  pub push : Kernel → ℕ → Kernel
  push k p = if p == current then k else send (resched k p) (k.task p).processor

  pub set_cpus_allowed : ℕ → Kernel → ℕ → ℕ → Outcome
  unfolding wait_legal push
  set_cpus_allowed fuel k p new_mask =
      let mask = bit_and new_mask cpu_online_map in
      let k' = allow k p mask in
      let waited = wait_legal fuel (push k' p) p in
      if mask == 0 then bug else if on_legal k' p == 0 then waited else done k'
