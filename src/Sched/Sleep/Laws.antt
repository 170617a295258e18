-- ===== src/Sched/Sleep/Laws.antt =====
-- What the four ways to sleep leave in the queue.
use os_design.Prelude.{
  ℕ, ◌≡◌, refl, ap, sym, ◌∙◌, inl, inr, List, [], ◌∷◌, ◌++◌, false, not, ◌&&◌, ◌==◌, if◌then◌else◌,
  Bool-cases, arith,
}
use os_design.Prelude.Int.{ℤ, pos, lt_ℤ, eq_ℤ}
use os_design.Sched.Task.{Headers}
use os_design.Sched.Timeout.{schedule_timeout}
use os_design.Sched.Sleep.{
  Entry, World, take_out, set_state, sleep_on_head, sleep_on_tail, interruptible_sleep_on, sleep_on,
  perform, timed, interruptible_sleep_on_timeout, sleep_on_timeout,
}

-- No entry of the queue has the address.
abbrev pub Absent : ℕ → List Entry → Type 0
Absent a [] = Unit
Absent a (w ∷ ws) = ((w.address == a) ≡ false) × Absent a ws

pub take_out-between :
    (a t : ℕ) (xs ys : List Entry)
    → Absent a xs
    → take_out (xs ++ record { address = a; task = t } ∷ ys) a ≡ xs ++ ys
unfolding take_out
take_out-between a t [] ys f = ground arith
take_out-between a t (x ∷ xs) ys f =
    rw f.0 (ap (λ (l : List Entry). x ∷ l) (take_out-between a t xs ys f.1))

-- A queue in which the entry stands at one place, between `xs` and `ys`.
pub record Holds (a t : ℕ) (w : World) (rest : List Entry) : Type 0 where
  pub before : List Entry
  pub behind : List Entry
  pub order : w.waiting ≡ before ++ record { address = a; task = t } ∷ behind
  pub first : Absent a before
  pub others : rest ≡ before ++ behind

module _ (h : Headers) (current self : ℕ) (sched : World → World) (others : World → List Entry)
    (keeps : (w : World) (rest : List Entry)
      → Holds self current w rest
      → Holds self current (sched w) (others w)) where
  head-Holds : (w : World) → Holds self current (sleep_on_head h current self sched w) w.waiting
  head-Holds w = record { before = []; behind = w.waiting; order = refl; first = tt; others = refl }

  tail-Holds :
      (w : World) (rest : List Entry)
      → Holds self current w rest
      → (sleep_on_tail h current self sched w).waiting ≡ rest
  unfolding sleep_on_tail
  tail-Holds w rest p =
      ap (λ (l : List Entry). take_out l self) p.order
      ∙ take_out-between self current p.before p.behind p.first
      ∙ sym p.others

  -- The queue after a sleep that began in the state `state`.
  abbrev pub after_sleep : World → ℕ → List Entry
  after_sleep w state =
      others (sleep_on_head h current self sched (set_state h current self sched w state))

  slept :
      (w : World) (state : ℕ)
      → (sleep_on_tail h current self sched (
          sched
            (sleep_on_head h current self sched (set_state h current self sched w state)))).waiting
        ≡ after_sleep w state
  slept w state =
      tail-Holds _ _ (keeps _ w.waiting (head-Holds (set_state h current self sched w state)))

  module _ (max_schedule_timeout : ℤ) (before after : ℕ) where
    -- `schedule_timeout` calls `schedule` unless the timeout is negative.
    timed_lem :
        (w : World) (state : ℕ) (timeout : ℤ)
        → (timed h current self sched max_schedule_timeout before after
            (set_state h current self sched w state)
            timeout).1.waiting
          ≡ (if not (eq_ℤ timeout max_schedule_timeout) && lt_ℤ timeout (pos 0)
              then w.waiting
              else after_sleep w state)
    unfolding timed perform schedule_timeout
    timed_lem w state timeout = elim (Bool-cases (eq_ℤ timeout max_schedule_timeout)) [
      | inl ever ↦ rw ever (slept w state)
      | inr some_time ↦ elim (Bool-cases (lt_ℤ timeout (pos 0))) [
        | inl negative ↦
            rw (some_time, negative)
              (tail-Holds _ w.waiting (record {
                before = [];
                behind = w.waiting;
                order = refl;
                first = tt;
                others = refl;
              }))
        | inr later ↦ rw (some_time, later) (slept w state)
      ]
    ]

    -- A `schedule` that leaves the entry of the sleeper at one place of the queue, whatever entries
    -- `others` it has put around it. After each of the four ways to sleep exactly those are in the
    -- queue; after a negative timeout other than `MAX_SCHEDULE_TIMEOUT`, the queue is as it was.
    pub sleep_on_lem :
        (w : World) (timeout : ℤ)
        → ((interruptible_sleep_on h current self sched w).waiting
            ≡ after_sleep w h.task_interruptible)
          × ((sleep_on h current self sched w).waiting ≡ after_sleep w h.task_uninterruptible)
          × ((interruptible_sleep_on_timeout h current self sched max_schedule_timeout before after
                w timeout).1.waiting
              ≡ (if not (eq_ℤ timeout max_schedule_timeout) && lt_ℤ timeout (pos 0)
                  then w.waiting
                  else after_sleep w h.task_interruptible))
          × ((sleep_on_timeout h current self sched max_schedule_timeout before after w
                timeout).1.waiting
              ≡ (if not (eq_ℤ timeout max_schedule_timeout) && lt_ℤ timeout (pos 0)
                  then w.waiting
                  else after_sleep w h.task_uninterruptible))
    unfolding interruptible_sleep_on sleep_on interruptible_sleep_on_timeout sleep_on_timeout
    sleep_on_lem w timeout = (
      slept w h.task_interruptible,
      slept w h.task_uninterruptible,
      timed_lem w h.task_interruptible timeout,
      timed_lem w h.task_uninterruptible timeout,
    )
