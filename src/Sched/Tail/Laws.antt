-- ===== src/Sched/Tail/Laws.antt =====
-- What the end of a switch changes.
use os_design.Prelude.{
  ℕ, ◌≡◌, ◌≢◌, refl, ap, sym, ◌∙◌, ◌⊎◌, inl, inr, Bool, true, false, ◌==◌, if◌then◌else◌,
  ℕ_discrete, bit_and, arith,
}
use mathlib.Core.Path.{subst}
use os_design.Prelude.Bits.{and_not, and_not-bit_and}
use os_design.Sched.Task.{Headers, Task}
use os_design.Sched.Idle.{Cpus, Kernel, put, reschedule_idle}
use os_design.Sched.Idle.Laws.{Nudged, reschedule_idle-Nudged}
use os_design.Sched.Tail.{unyield, needs_resched, schedule_tail}

module _ (h : Headers) (cpus : Cpus) (task_release_cpu : Task → Task)
    (task_has_cpu : Task → Bool) where
  -- What `task_release_cpu` does not touch.
  pub record Releases : Type 0 where
    pub policy : (t : Task) → (task_release_cpu t).policy ≡ t.policy
    pub state : (t : Task) → (task_release_cpu t).state ≡ t.state

  -- `k'` is `k` after the tail of the switch from `prev`.
  pub record Ended (k : Kernel) (prev : ℕ) (k' : Kernel) : Type 0 where
    pub queue : k'.queue ≡ k.queue
    pub running : k'.nr_running ≡ k.nr_running
    pub unyielded : bit_and (k'.task prev).policy h.sched_yield ≡ 0
    pub states : (q : ℕ) → (k'.task q).state ≡ (k.task q).state
    pub policies : (q : ℕ) → prev ≢ q → (k'.task q).policy ≡ (k.task q).policy

  abbrev switched : Kernel → ℕ → Task → Kernel
  switched k prev t = record k { task = put k.task prev t }

  own : (k : Kernel) (prev : ℕ) (t : Task) → (switched k prev t).task prev ≡ t
  own k prev t = ground arith

  other : (k : Kernel) (prev q : ℕ) (t : Task) → prev ≢ q → (switched k prev t).task q ≡ k.task q
  other k prev q t ne = ground arith

  put-Ended :
      (k : Kernel) (prev : ℕ) (t : Task)
      → t.policy ≡ and_not (k.task prev).policy h.sched_yield
      → t.state ≡ (k.task prev).state
      → Ended k prev (switched k prev t)
  put-Ended k prev t p s = record {
    queue = refl;
    running = refl;
    unyielded = rw (own k prev t, p) (and_not-bit_and (k.task prev).policy h.sched_yield);
    states = λ q. elim (ℕ_discrete prev q) [
      | yes same ↦ rw (← same, own k prev t) s
      | no ne ↦ rw (other k prev q t ne) refl
    ];
    policies = λ q ne. rw (other k prev q t ne) refl;
  }

  Nudged-same :
      {k k' : Kernel} (q : ℕ)
      → Nudged cpus.this_cpu k k'
      → ((k'.task q).state ≡ (k.task q).state) × ((k'.task q).policy ≡ (k.task q).policy)
  Nudged-same q n = elim (n.tasks q) [
    | inl e ↦ (ap (λ (t : Task). t.state) e, ap (λ (t : Task). t.policy) e)
    | inr e ↦ (ap (λ (t : Task). t.state) e, ap (λ (t : Task). t.policy) e)
  ]

  Nudged-Ended :
      (k k1 k' : Kernel) (prev : ℕ) → Ended k prev k1 → Nudged cpus.this_cpu k1 k' → Ended k prev k'
  Nudged-Ended k k1 k' prev e n = record {
    queue = n.queue ∙ e.queue;
    running = n.running ∙ e.running;
    unyielded = rw ((Nudged-same prev n).1) e.unyielded;
    states = λ q. (Nudged-same q n).0 ∙ e.states q;
    policies = λ q ne. (Nudged-same q n).1 ∙ e.policies q ne;
  }

  choice-Ended :
      (k : Kernel) (prev : ℕ) (b : Bool) (x y : Kernel)
      → Ended k prev x
      → Ended k prev y
      → Ended k prev (if b then x else y)
  choice-Ended k prev true x y p q = p
  choice-Ended k prev false x y p q = q

  -- No interrupt, and no other task is touched.
  abbrev Quiet : Kernel → ℕ → Kernel → Type 0
  Quiet k prev k' = (k'.sent ≡ k.sent) × ((q : ℕ) → prev ≢ q → k'.task q ≡ k.task q)

  choice-Quiet :
      (k : Kernel) (prev : ℕ) (b : Bool) (x y : Kernel)
      → Quiet k prev x
      → Quiet k prev y
      → Quiet k prev (if b then x else y)
  choice-Quiet k prev true x y p q = p
  choice-Quiet k prev false x y p q = q

  module _ (k : Kernel) (prev : ℕ) (r : Releases) where
    abbrev released : Task
    released = task_release_cpu (unyield h cpus task_release_cpu task_has_cpu (k.task prev))

    abbrev asks : Bool
    asks = needs_resched h cpus task_release_cpu task_has_cpu released prev (k.task prev).policy

    put_released : Ended k prev (switched k prev released)
    unfolding unyield
    put_released =
        put-Ended k prev released
          (r.policy (unyield h cpus task_release_cpu task_has_cpu (k.task prev)))
          (r.state (unyield h cpus task_release_cpu task_has_cpu (k.task prev)))

    put_unyielded :
        Ended k prev (switched k prev (unyield h cpus task_release_cpu task_has_cpu (k.task prev)))
    unfolding unyield
    put_unyielded =
        put-Ended k prev (unyield h cpus task_release_cpu task_has_cpu (k.task prev)) refl refl

    -- The tail of a switch, for a `task_release_cpu` that keeps policy and state. The run queue and
    -- all the states stay; the flag `SCHED_YIELD` is cleared in the task that was switched from, and
    -- no other policy changes.
    pub schedule_tail-Ended :
        Ended k prev (schedule_tail h cpus task_release_cpu task_has_cpu k prev)
    unfolding schedule_tail
    schedule_tail-Ended =
        choice-Ended k prev cpus.smp _ _
          (choice-Ended k prev asks _ _
            (Nudged-Ended k (switched k prev released) _ prev put_released
              (reschedule_idle-Nudged h cpus (switched k prev released) prev))
            put_released)
          put_unyielded

    no_asking :
        ((k.task prev).state == h.task_running) ≡ false
          ⊎ ((prev ≡ cpus.idle_task cpus.this_cpu)
              ⊎ ((bit_and (k.task prev).policy h.sched_yield == 0) ≡ false))
        → asks ≡ false
    unfolding needs_resched unyield
    no_asking (inl stopped) =
        rw (r.state (unyield h cpus task_release_cpu task_has_cpu (k.task prev)), stopped) refl
    no_asking (inr (inl idle)) = ground (arith, idle)
    no_asking (inr (inr yielded)) = ground (arith, yielded)

    -- When the task does not run, is the idle task or had yielded, no other task changes and no
    -- interrupt is sent.
    schedule_tail-Quiet :
        ((k.task prev).state == h.task_running) ≡ false
          ⊎ ((prev ≡ cpus.idle_task cpus.this_cpu)
              ⊎ ((bit_and (k.task prev).policy h.sched_yield == 0) ≡ false))
        → Quiet k prev (schedule_tail h cpus task_release_cpu task_has_cpu k prev)
    unfolding schedule_tail
    schedule_tail-Quiet c =
        choice-Quiet k prev cpus.smp _ _
          (subst
            (λ b. Quiet k prev (
              if b
              then reschedule_idle h cpus (switched k prev released) prev
              else switched k prev released))
            (sym (no_asking c)) (refl, λ q ne. other k prev q released ne))
          (refl, λ q ne. other k prev q _ ne)
