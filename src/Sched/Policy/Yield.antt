-- ===== src/Sched/Policy/Yield.antt =====
-- Project_2/stuff/sched.c: `sys_sched_yield`.
use os_design.Prelude.{
  ℕ, zero, suc, ◌≡◌, ◌≢◌, [], ◌∷◌, ◌++◌, Bool, true, Option, ◌==◌, if◌then◌else◌, bit_or, arith,
  refl, Bool-cases, inl, inr, sym, ap,
}
use mathlib.Core.Path.{subst}
use os_design.Prelude.Int.{ℤ, pos, negsuc, ◌-ℤ◌, eq_ℤ}
use os_design.Sched.Task.{Headers, Task}
use os_design.Sched.Goodness.{goodness, yields}
use os_design.Sched.Goodness.Laws.{goodness_yield}
use os_design.Sched.Idle.{Cpus, Kernel, put, idle}
use os_design.Sched.Wake.{move_last_runqueue, task_on_runqueue, list_del}
use os_design.Sched.Wake.Queue.{IsQueue, move_last_runqueue-IsQueue}
use os_design.Sched.Policy.{Return, ret, Env}

module _ (h : Headers) (cpus : Cpus) (env : Env) where
  -- The loop over the first processors, counting down the tasks that run on them.
  unfoldable pub subtract_busy : Kernel → ℕ → ℤ → ℤ
  subtract_busy k zero nr_pending = nr_pending
  subtract_busy k (suc i) nr_pending =
      let rest = subtract_busy k i nr_pending in
      if idle h cpus k (cpus.logical_map i) then rest else rest -ℤ pos 1

  unfoldable pub nr_pending : Kernel → ℤ
  unfolding subtract_busy
  nr_pending k =
      if cpus.smp
      then subtract_busy k cpus.num_cpus (pos k.nr_running)
      else pos k.nr_running -ℤ pos 1

  -- `policy |= SCHED_YIELD` for an ordinary task, and `need_resched = 1`.
  pub give_up : Task → Task
  give_up t =
      let policy = if t.policy == h.sched_other then bit_or t.policy h.sched_yield else t.policy in
      record t { policy = policy; need_resched = pos 1 }

  pub sys_sched_yield : Kernel → Kernel × Return
  unfolding nr_pending give_up move_last_runqueue
  sys_sched_yield k = if eq_ℤ (nr_pending k) (pos 0) then (k, ret (pos 0)) else (
    move_last_runqueue (record k { task = put k.task env.current (give_up (k.task env.current)) })
        env.current,
    ret (pos 0),
  )

  give_up-yields :
      (t : Task) → t.policy ≡ h.sched_other → (smp : Bool) → yields h smp (give_up t) ≡ true
  unfolding give_up
  give_up-yields t o smp = ground (arith, o, h.or-yield)

  -- A call with other tasks pending, on a well-formed run queue that holds the caller. It returns 0,
  -- keeps the tasks of the queue and its count, and puts the caller last. The caller is asked to
  -- reschedule, and if its policy is the ordinary one, its goodness is -1 after the call, on every
  -- processor and with every memory.
  pub sys_sched_yield_lem :
      (k : Kernel)
      → IsQueue k
      → task_on_runqueue k.queue env.current ≡ true
      → nr_pending k ≢ pos 0
      → ((sys_sched_yield k).1 ≡ ret (pos 0))
        × IsQueue (sys_sched_yield k).0
        × ((x : ℕ) → task_on_runqueue (sys_sched_yield k).0.queue x ≡ task_on_runqueue k.queue x)
        × ((sys_sched_yield k).0.queue ≡ list_del k.queue env.current ++ env.current ∷ [])
        × (((sys_sched_yield k).0.task env.current).need_resched ≡ pos 1)
        × ((k.task env.current).policy ≡ h.sched_other
            → (smp : Bool) (cpu : ℕ) (mm : Option ℕ)
            → goodness h smp ((sys_sched_yield k).0.task env.current) cpu mm ≡ negsuc 0)
  unfolding sys_sched_yield
  sys_sched_yield_lem k w on pending = elim (Bool-cases (eq_ℤ (nr_pending k) (pos 0))) [
    | inl z ↦ absurd (pending (ground arith))
    | inr z ↦ rw z (refl, moved.0, moved.1, refl, own_resched, own_goodness)
  ]
    where
      set : Kernel
      set = record k { task = put k.task env.current (give_up (k.task env.current)) }

      moved :
          IsQueue (move_last_runqueue set env.current)
          × ((x : ℕ)
              → task_on_runqueue (move_last_runqueue set env.current).queue x
                ≡ task_on_runqueue k.queue x)
      moved =
          move_last_runqueue-IsQueue set env.current (record { once = w.once; counted = w.counted })
            on

      own :
          put k.task env.current (give_up (k.task env.current)) env.current
          ≡ give_up (k.task env.current)
      own = ground arith

      own_resched :
          (put k.task env.current (give_up (k.task env.current)) env.current).need_resched ≡ pos 1
      own_resched = ap (λ (t : Task). t.need_resched) own

      flagged :
          (k.task env.current).policy ≡ h.sched_other
          → (smp : Bool) → yields h smp (give_up (k.task env.current)) ≡ true
      flagged o smp = give_up-yields (k.task env.current) o smp

      own_goodness :
          (k.task env.current).policy ≡ h.sched_other
          → (smp : Bool) (cpu : ℕ) (mm : Option ℕ)
          → goodness h smp
              (put k.task env.current (give_up (k.task env.current)) env.current)
              cpu
              mm
            ≡ negsuc 0
      own_goodness o smp cpu mm =
          subst (λ (t : Task). goodness h smp t cpu mm ≡ negsuc 0) (sym own)
            (goodness_yield h smp (give_up (k.task env.current)) cpu mm (flagged o smp))
