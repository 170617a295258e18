-- ===== src/Sched/Wake.antt =====
-- Project_2/stuff/sched.c: the run queue, `try_to_wake_up` and `__wake_up_common`.
-- `list_add_tail` and `list_del` of <linux/list.h> work on a doubly linked ring, which is a list
-- here; `task_on_runqueue` says whether the task is linked into it. The spin locks make each
-- function one step.
pub mod Queue
pub mod Laws
pub mod Common
pub mod All
mod Tests
use os_design.Prelude.{
  ℕ, suc, ◌+◌, ◌^◌, List, [], ◌∷◌, ◌++◌, Bool, true, false, ◌&&◌, ◌||◌, not, ◌==◌, if◌then◌else◌,
  bit_and, bit_or, Option, none, some,
}
use os_design.Prelude.Int.{ℤ, pos, ◌-ℤ◌, eq_ℤ}
use os_design.Sched.Task.{Headers, Task}
use os_design.Sched.Idle.{Cpus, Kernel, put, reschedule_idle}

unfoldable pub task_on_runqueue : List ℕ → ℕ → Bool
task_on_runqueue [] p = false
task_on_runqueue (q ∷ qs) p = q == p || task_on_runqueue qs p

unfoldable pub list_del : List ℕ → ℕ → List ℕ
list_del [] p = []
list_del (q ∷ qs) p = let rest = list_del qs p in if q == p then qs else q ∷ rest

abbrev pub list_add_tail : List ℕ → ℕ → List ℕ
list_add_tail qs p = qs ++ p ∷ []

pub add_to_runqueue : Kernel → ℕ → Kernel
add_to_runqueue k p = record k { queue = list_add_tail k.queue p; nr_running = k.nr_running + 1 }

unfoldable pub move_last_runqueue : Kernel → ℕ → Kernel
move_last_runqueue k p = record k { queue = list_add_tail (list_del k.queue p) p }

-- `wait_queue_t`.
pub record Waiter : Type 0 where
  pub task : ℕ
  pub flags : ℕ

-- `struct completion`, with its queue of waiters.
pub record Completion : Type 0 where
  pub done : ℕ
  pub wait : List Waiter

module _ (h : Headers) (cpus : Cpus) where
  -- `p->state = TASK_RUNNING`.
  abbrev pub mark_running : Kernel → ℕ → Kernel
  mark_running k p = record k { task = put k.task p (record (k.task p) { state = h.task_running }) }

  -- The kernel after the call, and `success`.
  pub try_to_wake_up : Kernel → ℕ → Bool → Kernel × Bool
  unfolding add_to_runqueue
  try_to_wake_up k p synchronous =
      let k' = mark_running k p in
      if task_on_runqueue k.queue p
      then (k', false)
      else if not synchronous || (bit_and (k.task p).cpus_allowed (2 ^ cpus.this_cpu) == 0)
      then (reschedule_idle h cpus (add_to_runqueue k' p) p, true)
      else (add_to_runqueue k' p, true)

  unfoldable pub wake_up_process : Kernel → ℕ → Kernel × Bool
  unfolding try_to_wake_up
  wake_up_process k p = try_to_wake_up k p false

  -- The loop over the waiters, left when `nr_exclusive` is counted down to 0: the counter goes down
  -- only for an exclusive waiter that was woken.
  pub wake_up_common : Kernel → List Waiter → ℕ → ℤ → Bool → Kernel
  wake_up_common k [] mode nr_exclusive sync = k
  wake_up_common k (w ∷ ws) mode nr_exclusive sync =
      let (k', woken) = try_to_wake_up k w.task sync in
      let exclusive = woken && not (bit_and w.flags h.wq_flag_exclusive == 0) in
      let skip = wake_up_common k ws mode nr_exclusive sync in
      let go_on = wake_up_common k' ws mode nr_exclusive sync in
      let count_down = wake_up_common k' ws mode (nr_exclusive -ℤ pos 1) sync in
      if bit_and (k.task w.task).state mode == 0
      then skip
      else if exclusive
      then (if eq_ℤ (nr_exclusive -ℤ pos 1) (pos 0) then k' else count_down)
      else go_on

  -- `if (q)`: `none` is a NULL queue.
  pub wake_up : Kernel → Option (List Waiter) → ℕ → ℤ → Kernel
  wake_up k none mode nr = k
  wake_up k (some q) mode nr = wake_up_common k q mode nr false

  pub wake_up_sync : Kernel → Option (List Waiter) → ℕ → ℤ → Kernel
  wake_up_sync k none mode nr = k
  wake_up_sync k (some q) mode nr = wake_up_common k q mode nr true

  unfoldable pub complete : Kernel → Completion → Kernel × Completion
  complete k x = (
    wake_up_common k x.wait (bit_or h.task_uninterruptible h.task_interruptible) (pos 1) false,
    record x { done = x.done + 1 },
  )
