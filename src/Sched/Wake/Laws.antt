-- ===== src/Sched/Wake/Laws.antt =====
-- What `try_to_wake_up` does to the run queue and the tasks.
use os_design.Prelude.{
  ℕ, ◌≡◌, ◌≢◌, refl, sym, ◌∙◌, ap, List, Bool, true, false, ◌||◌, not, ◌==◌, if◌then◌else◌, arith,
  inl, inr, Bool-cases, length, bit_and, ◌^◌,
}
use os_design.Sched.Task.{Headers, Task}
use os_design.Sched.Idle.{Cpus, Kernel}
use os_design.Sched.Idle.Laws.{Nudged, reschedule_idle-Nudged}
use os_design.Sched.Wake.{
  task_on_runqueue, list_add_tail, add_to_runqueue, mark_running, try_to_wake_up,
}
use os_design.Sched.Wake.Queue.{IsQueue, add_to_runqueue-IsQueue}

module _ (h : Headers) (cpus : Cpus) where
  -- `k'` and `ok` are what waking `p` gives.
  pub record Woken (k : Kernel) (p : ℕ) (k' : Kernel) (ok : Bool) : Type 0 where
    pub success : ok ≡ not (task_on_runqueue k.queue p)
    pub queue : k'.queue ≡ (if task_on_runqueue k.queue p then k.queue else list_add_tail k.queue p)
    pub valid : IsQueue k → IsQueue k'
    pub runs : (k'.task p).state ≡ h.task_running
    pub others : (q : ℕ) → p ≢ q → (k'.task q).state ≡ (k.task q).state

  Nudged-state :
      {k k' : Kernel} (q : ℕ) → Nudged cpus.this_cpu k k' → (k'.task q).state ≡ (k.task q).state
  Nudged-state q n = elim (n.tasks q) [
    | inl same ↦ ap (λ (t : Task). t.state) same
    | inr set ↦ ap (λ (t : Task). t.state) set
  ]

  Nudged-IsQueue : {k k' : Kernel} → Nudged cpus.this_cpu k k' → IsQueue k → IsQueue k'
  Nudged-IsQueue n w = record {
    once = rw n.queue w.once;
    counted = n.running ∙ w.counted ∙ ap (λ (q : List ℕ). length q) (sym n.queue);
  }

  Nudged-refl : (k : Kernel) → Nudged cpus.this_cpu k k
  Nudged-refl k = record {
    queue = refl;
    running = refl;
    curr = refl;
    last = refl;
    tasks = λ q. inl refl;
    sent = inl refl;
  }

  -- Waking a task that is off the queue, whatever is rescheduled.
  Woken-new :
      (k : Kernel) (p : ℕ) {k' : Kernel}
      → task_on_runqueue k.queue p ≡ false
      → Nudged cpus.this_cpu (add_to_runqueue (mark_running h cpus k p) p) k'
      → Woken k p k' true
  unfolding add_to_runqueue
  Woken-new k p off n = record {
    success = rw off;
    queue = rw off n.queue;
    valid = λ w. Nudged-IsQueue n (
        add_to_runqueue-IsQueue (mark_running h cpus k p) p off
          record { once = w.once; counted = w.counted });
    runs = Nudged-state p n ∙ ground arith;
    others = λ q ne. Nudged-state q n ∙ ground arith;
  }

  -- `try_to_wake_up` succeeds exactly if the task was not on the run queue; then the task is put at
  -- its end, and else the queue stays. The task is running, no other task's state changes, and the
  -- queue keeps each task once and the count right.
  pub try_to_wake_up-Woken :
      (k : Kernel) (p : ℕ) (sync : Bool)
      → Woken k p (try_to_wake_up h cpus k p sync).0 (try_to_wake_up h cpus k p sync).1
  unfolding try_to_wake_up
  try_to_wake_up-Woken k p sync = elim (Bool-cases (task_on_runqueue k.queue p)) [
    | inl on ↦ rw on record {
      success = rw on;
      queue = rw on;
      valid = λ w. record { once = w.once; counted = w.counted };
      runs = ground arith;
      others = λ q ne. ground arith;
    }
    | inr off ↦
        elim (Bool-cases (not sync || (bit_and (k.task p).cpus_allowed (2 ^ cpus.this_cpu) == 0))) [
          | inl look ↦
              rw (off, look)
                (Woken-new k p off
                  (reschedule_idle-Nudged h cpus (add_to_runqueue (mark_running h cpus k p) p) p))
          | inr stay ↦ rw (off, stay) (Woken-new k p off (Nudged-refl _))
        ]
  ]
