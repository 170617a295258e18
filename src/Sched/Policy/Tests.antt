-- ===== src/Sched/Policy/Tests.antt =====
-- The theorems on the calls at a shell and a real-time task.
use os_design.Prelude.{
  ℕ, ◌≡◌, ◌≢◌, refl, [], ◌∷◌, Bool, true, false, Option, some, arith, bit_or, ◌⊎◌, ◌++◌, ap, sym,
  ◌∙◌,
}
use os_design.Prelude.Int.{ℤ, pos, pos_part, negsuc, ◌≤ℤ◌, ◌<ℤ◌, ◌+ℤ◌, ◌-ℤ◌}
use os_design.Sched.Samples.{linux, shell, single}
use os_design.Sched.Goodness.{goodness}
use os_design.Sched.Wake.{task_on_runqueue, list_del}
use os_design.Sched.Wake.Queue.{IsQueue}
use os_design.Sched.Policy.Yield.{sys_sched_yield, nr_pending, sys_sched_yield_lem}
use os_design.Sched.Idle.{Kernel}
use os_design.Sched.Policy.{
  ret, eperm, einval, Env, holds, sys_nice, find_process_by_pid, set_found, sys_sched_setscheduler,
  sys_sched_setparam, store_policy,
}
use os_design.Sched.Policy.Nice.{clamp, sys_nice_lem}
use os_design.Sched.Policy.Set.{Stored, Allowed, sys_sched_setscheduler-ret, setparam_yielding}

abbrev root : Env
root = record { current = 1; find_task_by_pid = λ pid. some 2; capable = true }

abbrev user : Env
user = record { current = 1; find_task_by_pid = λ pid. some 2; capable = false }

-- Task 2 has yielded.
abbrev running : Kernel
running = record {
  task = λ q. record shell { policy = bit_or 0 16 };
  queue = 1 ∷ 2 ∷ [];
  nr_running = 2;
  curr = λ c. 1;
  last = λ c. 0;
  sent = [];
}

abbrev niced : Kernel
niced = (sys_nice linux user running (pos 30)).0

sys_nice_lem_example :
    (((pos 30 <ℤ pos 0) × (user.capable ≡ false))
      → sys_nice linux user running (pos 30) ≡ (running, eperm))
    × (((pos 0 ≤ℤ pos 30) ⊎ (user.capable ≡ true))
        → ((sys_nice linux user running (pos 30)).1 ≡ ret (pos 0))
          × ((niced.task 1).nice ≡ clamp (pos 0 +ℤ pos 30)))
    × ((q : ℕ) → 1 ≢ q → niced.task q ≡ running.task q)
sys_nice_lem_example = sys_nice_lem linux user running (pos 30) (omega arith, omega arith)

set_rr :
    (sys_sched_setscheduler linux root running (pos 5) (pos 2) (holds (pos 40))).1 ≡ ret (pos 0)
unfolding sys_sched_setscheduler find_process_by_pid set_found
set_rr = refl

sys_sched_setscheduler-ret_example :
    (p : ℕ) × (prio : ℤ) × (holds (pos 40) ≡ holds prio)
    × (find_process_by_pid linux root (pos 5) ≡ some p)
    × Allowed linux root running p (pos 2) prio
    × ((sys_sched_setscheduler linux root running (pos 5) (pos 2) (holds (pos 40))).0
        ≡ store_policy linux root running p (pos 2) prio)
    × Stored linux root running p
        (pos 2)
        prio
        (sys_sched_setscheduler linux root running (pos 5) (pos 2) (holds (pos 40))).0
sys_sched_setscheduler-ret_example =
    sys_sched_setscheduler-ret linux root running (pos 5) (pos 2) (holds (pos 40)) (omega arith)
      set_rr

finds : find_process_by_pid linux user (pos 5) ≡ some 2
unfolding find_process_by_pid
finds = refl

setparam_yielding_example :
    ((pos 7 ≡ pos 0)
      → sys_sched_setparam linux user running (pos 5) (holds (pos 7)) ≡ (running, einval))
    × ((pos 1 ≤ℤ pos 7)
        → (pos 7 ≤ℤ pos 99)
        → sys_sched_setparam linux user running (pos 5) (holds (pos 7))
          ≡ (store_policy linux user running 2 (pos 16) (pos 7), ret (pos 0)))
setparam_yielding_example =
    setparam_yielding linux user running (pos 5) (pos 7) 2 (omega arith) finds refl refl

-- Before the call, with the ordinary policy.
abbrev fresh_tasks : Kernel
fresh_tasks = record running { task = λ q. shell }

abbrev yielded : Kernel
yielded = (sys_sched_yield linux single user fresh_tasks).0

fresh_tasks-IsQueue : IsQueue fresh_tasks
unfolding task_on_runqueue
fresh_tasks-IsQueue = record { once = (refl, (refl, tt)); counted = refl }

queued : task_on_runqueue (1 ∷ 2 ∷ []) 1 ≡ true
unfolding task_on_runqueue
queued = refl

pending_count : nr_pending linux single user fresh_tasks ≡ pos 1
unfolding nr_pending ◌-ℤ◌
pending_count = refl

one_pending : nr_pending linux single user fresh_tasks ≢ pos 0
one_pending e = absurd (omega (arith, ap pos_part (sym pending_count ∙ e)))

sys_sched_yield_lem_example :
    ((sys_sched_yield linux single user fresh_tasks).1 ≡ ret (pos 0))
    × IsQueue yielded
    × ((x : ℕ) → task_on_runqueue yielded.queue x ≡ task_on_runqueue (1 ∷ 2 ∷ []) x)
    × (yielded.queue ≡ list_del (1 ∷ 2 ∷ []) 1 ++ 1 ∷ [])
    × ((yielded.task 1).need_resched ≡ pos 1)
    × ((fresh_tasks.task 1).policy ≡ 0
        → (smp : Bool) (cpu : ℕ) (mm : Option ℕ)
        → goodness linux smp (yielded.task 1) cpu mm ≡ negsuc 0)
sys_sched_yield_lem_example =
    sys_sched_yield_lem linux single user fresh_tasks fresh_tasks-IsQueue queued one_pending
