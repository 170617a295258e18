-- ===== src/Sched/Idle/Laws.antt =====
-- What `reschedule_idle` changes.
use os_design.Prelude.{
  ℕ, ◌≡◌, ◌≢◌, refl, ◌∷◌, Bool, true, false, ◌&&◌, Option, none, some, ◌==◌, if◌then◌else◌, arith,
  inl, inr, ◌⊎◌, Bool-cases, ℕ_discrete,
}
use os_design.Prelude.Int.{pos, eq_ℤ, lt_ℤ}
use os_design.Sched.Task.{Headers}
use os_design.Sched.Goodness.{preemption_goodness}
use os_design.Sched.Idle.{
  Cpus, Kernel, can_schedule, idle, resched, send, send_now_idle, preempt, settle, reschedule_smp,
  reschedule_up, reschedule_idle,
}

-- `k'` differs from `k` in `need_resched` of tasks, which may have become 1, and in at most one
-- interrupt, to another processor than `this_cpu`.
pub record Nudged (this_cpu : ℕ) (k k' : Kernel) : Type 0 where
  pub queue : k'.queue ≡ k.queue
  pub running : k'.nr_running ≡ k.nr_running
  pub curr : k'.curr ≡ k.curr
  pub last : k'.last ≡ k.last
  pub tasks :
      (q : ℕ) → (k'.task q ≡ k.task q) ⊎ (k'.task q ≡ record (k.task q) { need_resched = pos 1 })
  pub sent : (k'.sent ≡ k.sent) ⊎ ((c : ℕ) × (c ≢ this_cpu) × (k'.sent ≡ c ∷ k.sent))

Nudged-refl : (this_cpu : ℕ) (k : Kernel) → Nudged this_cpu k k
Nudged-refl this_cpu k = record {
  queue = refl;
  running = refl;
  curr = refl;
  last = refl;
  tasks = λ q. inl refl;
  sent = inl refl;
}

resched-tasks :
    (k : Kernel) (p q : ℕ)
    → ((resched k p).task q ≡ k.task q)
      ⊎ ((resched k p).task q ≡ record (k.task q) { need_resched = pos 1 })
resched-tasks k p q = elim (ℕ_discrete p q) [
  | yes same ↦ inr (ground arith)
  | no other ↦ inl (ground arith)
]

Nudged-resched : (this_cpu : ℕ) (k : Kernel) (p : ℕ) → Nudged this_cpu k (resched k p)
Nudged-resched this_cpu k p = record {
  queue = refl;
  running = refl;
  curr = refl;
  last = refl;
  tasks = resched-tasks k p;
  sent = inl refl;
}

Nudged-send :
    (this_cpu : ℕ) (k : Kernel) (p c : ℕ)
    → (c == this_cpu) ≡ false
    → Nudged this_cpu k (send (resched k p) c)
Nudged-send this_cpu k p c other = record {
  queue = refl;
  running = refl;
  curr = refl;
  last = refl;
  tasks = resched-tasks k p;
  sent = inr (c, ground arith, refl);
}

module _ (h : Headers) (cpus : Cpus) where
  Nudged-if :
      (b : Bool) (k : Kernel) {k' k'' : Kernel}
      → Nudged cpus.this_cpu k k'
      → Nudged cpus.this_cpu k k''
      → Nudged cpus.this_cpu k (if b then k' else k'')
  Nudged-if true k n m = n
  Nudged-if false k n m = m

  send_now_idle-Nudged :
      (k : Kernel) (tsk c : ℕ) → Nudged cpus.this_cpu k (send_now_idle h cpus k tsk c)
  unfolding send_now_idle
  send_now_idle-Nudged k tsk c = elim (Bool-cases (c == cpus.this_cpu)) [
    | inl here ↦ rw here (Nudged-resched cpus.this_cpu k tsk)
    | inr away ↦ elim (Bool-cases (eq_ℤ (k.task tsk).need_resched (pos 0))) [
      | inl quiet ↦ rw (away, quiet) (Nudged-send cpus.this_cpu k tsk c away)
      | inr polled ↦ rw (away, polled) (Nudged-resched cpus.this_cpu k tsk)
    ]
  ]

  preempt-Nudged : (k : Kernel) (tsk : ℕ) → Nudged cpus.this_cpu k (preempt h cpus k tsk)
  unfolding preempt
  preempt-Nudged k tsk = elim (Bool-cases ((k.task tsk).processor == cpus.this_cpu)) [
    | inl here ↦ rw here (Nudged-resched cpus.this_cpu k tsk)
    | inr away ↦ rw away (Nudged-send cpus.this_cpu k tsk (k.task tsk).processor away)
  ]

  settle-Nudged :
      (k : Kernel) (oldest_idle : ℕ) (target : Option ℕ)
      → Nudged cpus.this_cpu k (settle h cpus k oldest_idle target)
  unfolding settle
  settle-Nudged k oldest_idle none = Nudged-refl cpus.this_cpu k
  settle-Nudged k oldest_idle (some tsk) = elim (Bool-cases (oldest_idle == cpus.cycles_max)) [
    | inl busy ↦ rw busy (preempt-Nudged k tsk)
    | inr found ↦ rw found (send_now_idle-Nudged k tsk (k.task tsk).processor)
  ]

  reschedule_smp-Nudged : (k : Kernel) (p : ℕ) → Nudged cpus.this_cpu k (reschedule_smp h cpus k p)
  unfolding reschedule_smp
  reschedule_smp-Nudged k p =
      let cpu = (k.task p).processor in
      elim (Bool-cases (can_schedule h cpus (k.task p) cpu && idle h cpus k cpu)) [
        | inl shortcut ↦ rw shortcut (send_now_idle-Nudged k (cpus.idle_task cpu) cpu)
        | inr long ↦ rw long (settle-Nudged k _ _)
      ]

  reschedule_up-Nudged : (k : Kernel) (p : ℕ) → Nudged cpus.this_cpu k (reschedule_up h cpus k p)
  unfolding reschedule_up
  reschedule_up-Nudged k p =
      let tsk = k.curr cpus.this_cpu in
      elim (Bool-cases
        (lt_ℤ (pos 0) (preemption_goodness h cpus.smp (k.task tsk) (k.task p) cpus.this_cpu))) [
          | inl better ↦ rw better (Nudged-resched cpus.this_cpu k tsk)
          | inr not_better ↦ rw not_better (Nudged-refl cpus.this_cpu k)
        ]

  -- On one processor and on several, `reschedule_idle` changes nothing but `need_resched`, which it
  -- sets to 1, and the interrupts: at most one is sent, and never to the processor it runs on.
  pub reschedule_idle-Nudged :
      (k : Kernel) (p : ℕ) → Nudged cpus.this_cpu k (reschedule_idle h cpus k p)
  unfolding reschedule_idle
  reschedule_idle-Nudged k p =
      Nudged-if cpus.smp k (reschedule_smp-Nudged k p) (reschedule_up-Nudged k p)
