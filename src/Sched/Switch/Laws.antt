-- ===== src/Sched/Switch/Laws.antt =====
-- The memories of the tasks across a switch.
use os_design.Prelude.Int.{ℤ, ◌-ℤ◌}
use os_design.Prelude.{ℕ, ◌≡◌, ◌≢◌, refl, ap, ◌∙◌, Option, none, some, arith}
use os_design.Sched.Task.{Task}
use os_design.Sched.Switch.Settled.{IsSettled, put-mm, put_other, put_same}
use os_design.Sched.Switch.Cases.{
  SetsCpu, ready, base, lent, ready-mm, user_user, kernel_user, user_kernel, kernel_kernel,
  from_user, from_kernel,
}
use os_design.Sched.Switch.Loan.{
  lent_to, on_loan, balanced, lent_to_user, lent_to_kernel, count_lent, count_returned,
  count_passed,
}
use os_design.Sched.Switch.{Switch, Outcome, switched, give_back, switch_task}

module _ (task_set_cpu : Task → ℕ → Task) (f : SetsCpu task_set_cpu) (s : Switch) (i : IsSettled s)
    (next : ℕ) (ne : s.current ≢ next) where
  record Settles (o : Outcome) : Type 0 where
    after : Switch
    reached : o ≡ switched after
    settled : IsSettled after
    runs : after.current ≡ next
    other_counts : (m : ℕ) → i.memory ≢ m → after.mm_count m ≡ s.mm_count m
    balance : (m : ℕ) → after.mm_count m -ℤ on_loan after m ≡ s.mm_count m -ℤ on_loan s m

  mm_next : (nm : Option ℕ) → (s.task next).mm ≡ nm → (ready task_set_cpu f s i next next).mm ≡ nm
  mm_next nm e = ready-mm task_set_cpu f s i next next ∙ e

  by_memories :
      (nm pm : Option ℕ)
      → (s.task next).mm ≡ nm
      → (s.task s.current).mm ≡ pm
      → Settles (switch_task task_set_cpu s next)
  unfolding give_back lent base
  by_memories (some a) (some b) e g = record {
    after = _;
    reached = from_user task_set_cpu f s i next ne a (some b) e g;
    settled = user_user task_set_cpu f s i next ne a b e g;
    runs = refl;
    other_counts = λ m other. refl;
    balance =
        λ m. balanced _ _ (lent_to_user _ a m (mm_next (some a) e)) (lent_to_user _ b m g) refl;
  }
  by_memories (some a) none e g = record {
    after = _;
    reached = from_user task_set_cpu f s i next ne a none e g;
    settled = kernel_user task_set_cpu f s i next ne a _ e g;
    runs = refl;
    other_counts = λ m other. ground arith;
    balance = λ m.
        balanced _ _
          (lent_to_user _ a m
            (put-mm (ready task_set_cpu f s i next) s.current next none ∙ mm_next (some a) e))
          (lent_to_kernel i.memory m g i.active) (count_returned s.mm_count i.memory m);
  }
  by_memories none (some b) e g = record {
    after = _;
    reached = from_kernel task_set_cpu f s i next ne (some b) e g;
    settled = user_kernel task_set_cpu f s i next ne b e g;
    runs = refl;
    other_counts = λ m other. ground arith;
    balance = λ m.
        balanced _ _
          (lent_to_kernel i.memory m
            (put-mm (ready task_set_cpu f s i next) next next (some i.memory) ∙ mm_next none e)
            (put_same (ready task_set_cpu f s i next) next (some i.memory)))
          (lent_to_user _ b m g) (count_lent s.mm_count i.memory m);
  }
  by_memories none none e g = record {
    after = _;
    reached = from_kernel task_set_cpu f s i next ne none e g;
    settled = kernel_kernel task_set_cpu f s i next ne _ e g;
    runs = refl;
    other_counts = λ m other. ground arith;
    balance = λ m.
        balanced _ _
          (lent_to_kernel i.memory m
            (put-mm (lent task_set_cpu f s i next ne).task s.current next none
              ∙ put-mm (ready task_set_cpu f s i next) next next (some i.memory)
              ∙ mm_next none e)
            (put_other (lent task_set_cpu f s i next ne).task s.current next none ne
              ∙ put_same (ready task_set_cpu f s i next) next (some i.memory)))
          (lent_to_kernel i.memory m g i.active)
          (ap (λ (x : ℤ). x -ℤ lent_to none (some i.memory) m)
            (count_passed s.mm_count i.memory m));
  }

  -- A switch from a settled state to another task than the current one meets no BUG_ON: that task
  -- runs, and the state is settled again. No count but that of the memory in use has changed, and
  -- each count, less one for the memory that a running kernel thread has on loan, is what it was.
  pub switch_task-IsSettled :
      (u : Switch) × (switch_task task_set_cpu s next ≡ switched u)
      × IsSettled u
      × (u.current ≡ next)
      × ((m : ℕ) → i.memory ≢ m → u.mm_count m ≡ s.mm_count m)
      × ((m : ℕ) → u.mm_count m -ℤ on_loan u m ≡ s.mm_count m -ℤ on_loan s m)
  switch_task-IsSettled =
      let r = by_memories (s.task next).mm (s.task s.current).mm refl refl in
      (r.after, r.reached, r.settled, r.runs, r.other_counts, r.balance)
