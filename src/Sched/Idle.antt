-- ===== src/Sched/Idle.antt =====
-- Project_2/stuff/sched.c: `reschedule_idle`, which looks for a processor for a woken task.
pub mod Search
pub mod Laws
mod Tests
use os_design.Prelude.{
  ℕ, zero, suc, ◌+◌, ◌^◌, List, [], ◌∷◌, Bool, true, false, ◌&&◌, not, Option, none, some, ltb,
  ◌==◌, if◌then◌else◌, bit_and,
}
use os_design.Prelude.Int.{ℤ, pos, eq_ℤ, lt_ℤ}
use os_design.Sched.Task.{Headers, Task}
use os_design.Sched.Goodness.{preemption_goodness}

-- What the code takes from the headers about the processors: the maps between their numbers, the
-- idle task of each, the siblings on one chip, and `(cycles_t) -1`. `smp` is CONFIG_SMP.
pub record Cpus : Type 0 where
  pub smp : Bool
  pub num_cpus : ℕ
  pub logical_map : ℕ → ℕ
  pub idle_task : ℕ → ℕ
  pub num_siblings : ℕ
  pub sibling_map : ℕ → ℕ
  pub cycles_max : ℕ
  pub this_cpu : ℕ

-- The scheduler's global state. A task is named by its address; `sent` are the processors that
-- `smp_send_reschedule` was called for, the last one first.
pub record Kernel : Type 0 where
  pub task : ℕ → Task
  pub queue : List ℕ
  pub nr_running : ℕ
  pub curr : ℕ → ℕ
  pub last : ℕ → ℕ
  pub sent : List ℕ

abbrev pub put : (ℕ → Task) → ℕ → Task → ℕ → Task
put f p t q = if p == q then t else f q

abbrev pub resched : Kernel → ℕ → Kernel
resched k p = record k { task = put k.task p (record (k.task p) { need_resched = pos 1 }) }

abbrev pub send : Kernel → ℕ → Kernel
send k cpu = record k { sent = cpu ∷ k.sent }

-- The locals of the search.
pub record Best : Type 0 where
  pub oldest_idle : ℕ
  pub target : Option ℕ
  pub max_prio : ℤ

module _ (h : Headers) (cpus : Cpus) where
  abbrev pub can_schedule : Task → ℕ → Bool
  can_schedule p cpu = not (bit_and (bit_and p.cpus_runnable p.cpus_allowed) (2 ^ cpu) == 0)

  abbrev pub idle : Kernel → ℕ → Bool
  idle k cpu = k.curr cpu == cpus.idle_task cpu

  -- The turn of the loop for one processor, and whether it ends the loop.
  pub look_at : Kernel → Task → ℕ → Best → Best × Bool
  look_at k p cpu b =
      if not (can_schedule p cpu)
      then (b, false)
      else if idle k cpu
      then (if cpus.num_siblings == 2 && idle k (cpus.sibling_map cpu)
          then (record b { oldest_idle = k.last cpu; target = some (k.curr cpu) }, true)
          else if ltb (k.last cpu) b.oldest_idle
          then (record b { oldest_idle = k.last cpu; target = some (k.curr cpu) }, false)
          else (b, false))
      else if b.oldest_idle == cpus.cycles_max
      then (let prio = preemption_goodness h cpus.smp (k.task (k.curr cpu)) p cpu in
          if lt_ℤ b.max_prio prio
          then (record b { max_prio = prio; target = some (k.curr cpu) }, false)
          else (b, false))
      else (b, false)

  -- `for (i = 0; i < smp_num_cpus; i++)`, with the rounds that are left.
  pub search : Kernel → Task → ℕ → ℕ → Best → Best
  unfolding look_at
  search k p zero i b = b
  search k p (suc left) i b =
      let (b', stop) = look_at k p (cpus.logical_map i) b in
      let rest = search k p left (i + 1) b' in if stop then b' else rest

  abbrev pub no_target : Best
  no_target = record { oldest_idle = cpus.cycles_max; target = none; max_prio = pos 0 }

  -- The label `send_now_idle`, for the task `tsk` that is idle on `best_cpu`.
  pub send_now_idle : Kernel → ℕ → ℕ → Kernel
  send_now_idle k tsk best_cpu =
      let need = (k.task tsk).need_resched in
      if not (best_cpu == cpus.this_cpu) && eq_ℤ need (pos 0)
      then send (resched k tsk) best_cpu
      else resched k tsk

  pub preempt : Kernel → ℕ → Kernel
  preempt k tsk =
      let cpu = (k.task tsk).processor in
      if cpu == cpus.this_cpu then resched k tsk else send (resched k tsk) cpu

  -- After the loop, with its `oldest_idle` and `target_tsk`.
  pub settle : Kernel → ℕ → Option ℕ → Kernel
  settle k oldest_idle none = k
  settle k oldest_idle (some tsk) =
      if oldest_idle == cpus.cycles_max
      then preempt k tsk
      else send_now_idle k tsk (k.task tsk).processor

  pub reschedule_smp : Kernel → ℕ → Kernel
  reschedule_smp k p =
      let best_cpu = (k.task p).processor in
      let b = search k (k.task p) cpus.num_cpus 0 no_target in
      if can_schedule (k.task p) best_cpu && idle k best_cpu
      then send_now_idle k (cpus.idle_task best_cpu) best_cpu
      else settle k b.oldest_idle b.target

  pub reschedule_up : Kernel → ℕ → Kernel
  reschedule_up k p =
      let tsk = k.curr cpus.this_cpu in
      if lt_ℤ (pos 0) (preemption_goodness h cpus.smp (k.task tsk) (k.task p) cpus.this_cpu)
      then resched k tsk
      else k

  pub reschedule_idle : Kernel → ℕ → Kernel
  reschedule_idle k p = if cpus.smp then reschedule_smp k p else reschedule_up k p
