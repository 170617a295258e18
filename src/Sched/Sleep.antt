-- ===== src/Sched/Sleep.antt =====
-- Project_2/stuff/sched.c: `sleep_on` and its three kin. `schedule`, with all that others do until it
-- comes back, is a parameter; `wait` is an entry of the queue with the address `self`, since the list
-- functions of <linux/wait.h> put in and take out entries, not tasks.
pub mod Laws
mod Tests
use os_design.Prelude.{ℕ, List, [], ◌∷◌, ◌==◌, if◌then◌else◌}
use os_design.Prelude.Int.{ℤ}
use os_design.Sched.Task.{Headers, Task}
use os_design.Sched.Idle.{put}
use os_design.Sched.Timeout.{
  Effect, add_timer, schedule, del_timer_sync, set_running, schedule_timeout,
}

-- `wait_queue_t` at its address.
pub record Entry : Type 0 where
  pub address : ℕ
  pub task : ℕ

-- The tasks, and the queue of a `wait_queue_head_t`.
pub record World : Type 0 where
  pub tasks : ℕ → Task
  pub waiting : List Entry

-- `__remove_wait_queue`.
pub take_out : List Entry → ℕ → List Entry
take_out [] a = []
take_out (w ∷ ws) a = let rest = take_out ws a in if w.address == a then ws else w ∷ rest

module _ (h : Headers) (current self : ℕ) (sched : World → World) where
  -- `current->state = ...`.
  abbrev pub set_state : World → ℕ → World
  set_state w state = record w {
    tasks = put w.tasks current (record (w.tasks current) { state = state });
  }

  -- `SLEEP_ON_HEAD`: `__add_wait_queue` puts the entry in front.
  abbrev pub sleep_on_head : World → World
  sleep_on_head w = record w { waiting = record { address = self; task = current } ∷ w.waiting }

  -- `SLEEP_ON_TAIL`.
  pub sleep_on_tail : World → World
  unfolding take_out
  sleep_on_tail w = record w { waiting = take_out w.waiting self }

  pub interruptible_sleep_on : World → World
  unfolding sleep_on_tail
  interruptible_sleep_on w =
      sleep_on_tail (sched (sleep_on_head (set_state w h.task_interruptible)))

  pub sleep_on : World → World
  unfolding sleep_on_tail
  sleep_on w = sleep_on_tail (sched (sleep_on_head (set_state w h.task_uninterruptible)))

  -- What `schedule_timeout` does, on the world.
  pub perform : List Effect → World → World
  perform [] w = w
  perform (schedule ∷ es) w = perform es (sched w)
  perform (set_running ∷ es) w = perform es (set_state w h.task_running)
  perform (add_timer expires ∷ es) w = perform es w
  perform (del_timer_sync ∷ es) w = perform es w

  module _ (max_schedule_timeout : ℤ) (before after : ℕ) where
    pub timed : World → ℤ → ℤ × World
    unfolding perform
    timed w timeout =
        let (rest, es) = schedule_timeout max_schedule_timeout before after timeout in
        (rest, sleep_on_tail (perform es (sleep_on_head w)))

    pub interruptible_sleep_on_timeout : World → ℤ → ℤ × World
    unfolding timed
    interruptible_sleep_on_timeout w timeout = timed (set_state w h.task_interruptible) timeout

    pub sleep_on_timeout : World → ℤ → ℤ × World
    unfolding timed
    sleep_on_timeout w timeout = timed (set_state w h.task_uninterruptible) timeout
