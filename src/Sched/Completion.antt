-- ===== src/Sched/Completion.antt =====
-- Project_2/stuff/sched.c: `wait_for_completion`, with `complete` of Sched.Wake. The lock of the
-- queue makes what stands between `spin_lock_irq` and `spin_unlock_irq` one step; a task that has
-- called `schedule` goes on when it runs again. `DECLARE_WAITQUEUE` and the functions on queues are
-- of <linux/wait.h>: the waiter names the task, and is put at the end or taken out.
pub mod Awake
pub mod Laws
mod Tests
use os_design.Prelude.{
  ℕ, ◌+◌, ◌-◌, ◌≡◌, ◌≢◌, List, [], ◌∷◌, ◌++◌, Bool, true, false, ◌==◌, if◌then◌else◌, ℕ_discrete,
}
use mathlib.Core.Logic.{ite}
use os_design.Sched.Task.{Headers, Task}
use os_design.Sched.Idle.{Cpus, Kernel, put}
use os_design.Sched.Wake.{Waiter, Completion, complete, list_del, wake_up_process}

-- `__remove_wait_queue`, of the waiter of a task.
pub remove_waiter : List Waiter → ℕ → List Waiter
remove_waiter [] t = []
remove_waiter (w ∷ ws) t = let rest = remove_waiter ws t in if w.task == t then ws else w ∷ rest

-- The kernel, the completion, which tasks are in the loop of `wait_for_completion`, and how often
-- `complete` was called and `wait_for_completion` has returned.
pub record System : Type 0 where
  pub kernel : Kernel
  pub x : Completion
  pub inside : ℕ → Bool
  pub completed : ℕ
  pub returned : ℕ

abbrev pub mark : (ℕ → Bool) → ℕ → Bool → ℕ → Bool
mark f t b u = ite (ℕ_discrete t u) b (f u)

module _ (h : Headers) (cpus : Cpus) where
  -- `__set_current_state(TASK_UNINTERRUPTIBLE)`.
  abbrev pub mark_asleep : Kernel → ℕ → Kernel
  mark_asleep k t = record k {
    task = put k.task t (record (k.task t) { state = h.task_uninterruptible });
  }

  -- The call, up to `schedule` or to its end.
  pub begin_wait : System → ℕ → System
  begin_wait s t =
      if s.x.done == 0
      then record s {
        kernel = mark_asleep s.kernel t;
        x = record s.x { wait = s.x.wait ++ record { task = t; flags = h.wq_flag_exclusive } ∷ [] };
        inside = mark s.inside t true;
      }
      else record s { x = record s.x { done = s.x.done - 1 }; returned = s.returned + 1 }

  -- From behind `schedule` on: `while (!x->done)`, and the end.
  pub resume : System → ℕ → System
  unfolding remove_waiter
  resume s t = if s.x.done == 0 then record s { kernel = mark_asleep s.kernel t } else record s {
    x = record { done = s.x.done - 1; wait = remove_waiter s.x.wait t };
    inside = mark s.inside t false;
    returned = s.returned + 1;
  }

  pub completes : System → System
  unfolding complete
  completes s =
      let (k, x) = complete h cpus s.kernel s.x in
      record s { kernel = k; x = x; completed = s.completed + 1 }

  pub data Step (s : System) : System → Type 0 where
    enters : (t : ℕ) → s.inside t ≡ false → Step s (begin_wait s t)
    goes_on :
        (t : ℕ) → s.inside t ≡ true → (s.kernel.task t).state ≡ h.task_running → Step s (resume s t)
    signals : Step s (completes s)
    -- `schedule` takes a task that does not run off the queue.
    leaves :
        (t : ℕ)
        → (s.kernel.task t).state ≢ h.task_running
        → Step s (record s {
          kernel = record s.kernel {
            queue = list_del s.kernel.queue t;
            nr_running = s.kernel.nr_running - 1;
          };
        })
    -- Somebody else wakes a task.
    wakes : (t : ℕ) → Step s (record s { kernel = (wake_up_process h cpus s.kernel t).0 })

  -- From a completion that nobody waits for.
  pub data Reach (k : Kernel) : System → Type 0 where
    here : Reach k (record {
      kernel = k;
      x = record { done = 0; wait = [] };
      inside = λ t. false;
      completed = 0;
      returned = 0;
    })
    next : {s u : System} → Reach k s → Step s u → Reach k u
