-- ===== src/Sched/Switch/Cases.antt =====
-- The four switches, between tasks with a memory of their own and kernel threads.
use os_design.Prelude.Int.{ℤ, pos, ◌+ℤ◌}
use os_design.Prelude.{
  ℕ, ◌+◌, ◌==◌, if◌then◌else◌, ◌≡◌, ◌≢◌, sym, refl, ap, ◌∙◌, Option, none, some, arith, ℕ_discrete,
}
use os_design.Sched.Task.{Task}
use os_design.Sched.Idle.{put}
use os_design.Sched.Switch.Settled.{IsSettled, settles, put-mm, put_other, put_same}
use os_design.Sched.Switch.{Switch, bug, switched, count, give_back, borrow, finish, switch_task}

-- What the header's `task_set_cpu` does not touch.
pub record SetsCpu (task_set_cpu : Task → ℕ → Task) : Type 0 where
  pub keeps_mm : (t : Task) (cpu : ℕ) → (task_set_cpu t cpu).mm ≡ t.mm
  pub keeps_active : (t : Task) (cpu : ℕ) → (task_set_cpu t cpu).active_mm ≡ t.active_mm

module _ (task_set_cpu : Task → ℕ → Task) (f : SetsCpu task_set_cpu) (s : Switch)
    (i : IsSettled s) where
  unfoldable pub ready : ℕ → ℕ → Task
  ready next = put s.task next (task_set_cpu (s.task next) (s.task s.current).processor)

  pub ready-mm : (next q : ℕ) → (ready next q).mm ≡ (s.task q).mm
  unfolding ready
  ready-mm next q = elim (ℕ_discrete next q) [
    | yes same ↦ rw same (ground (arith, f.keeps_mm (s.task q) (s.task s.current).processor))
    | no other ↦ ground arith
  ]

  pub ready-active : (next q : ℕ) → (ready next q).active_mm ≡ (s.task q).active_mm
  unfolding ready
  ready-active next q = elim (ℕ_discrete next q) [
    | yes same ↦ rw same (ground (arith, f.keeps_active (s.task q) (s.task s.current).processor))
    | no other ↦ ground arith
  ]

  -- The switch with what the tests read.
  reads :
      (next : ℕ) (nm am om : Option ℕ)
      → (s.task next).mm ≡ nm
      → (s.task next).active_mm ≡ am
      → (s.task s.current).active_mm ≡ om
      → switch_task task_set_cpu s next
        ≡ finish s.current next om (
            borrow
              (record s { task = ready next; context_swtch = s.context_swtch + 1 })
              next
              nm
              am
              om)
  unfolding switch_task ready
  reads next nm am om e f g =
      let prev = s.current in
      let r : Switch = record s { task = ready next; context_swtch = s.context_swtch + 1 } in
      let now = (ready next prev).active_mm in
      ap (λ (x : Option ℕ). finish prev next now (borrow r next x (ready next next).active_mm now))
        (ready-mm next next ∙ e)
      ∙ ap (λ (x : Option ℕ). finish prev next now (borrow r next nm x now))
          (ready-active next next ∙ f)
      ∙ ap (λ (x : Option ℕ). finish prev next x (borrow r next nm am x))
          (ready-active next prev ∙ g)

  -- When the chosen task is a kernel thread that runs already, the switch meets BUG_ON: `schedule`
  -- does not test whether it has chosen the current task.
  pub switch_task_self : (s.task s.current).mm ≡ none → switch_task task_set_cpu s s.current ≡ bug
  unfolding borrow finish
  switch_task_self kernel =
      reads s.current none (some i.memory) (some i.memory) kernel i.active i.active

  module _ (next : ℕ) (ne : s.current ≢ next) where
    unfoldable pub base : Switch
    base = record s { task = ready next; context_swtch = s.context_swtch + 1 }

    unfoldable pub lent : Switch
    lent = record base {
      task = put (ready next) next (record (ready next next) { active_mm = some i.memory });
      mm_count = count s.mm_count i.memory (s.mm_count i.memory +ℤ pos 1);
    }

    -- Between two tasks with memories of their own.
    pub user_user :
        (a b : ℕ)
        → (s.task next).mm ≡ some a
        → (s.task s.current).mm ≡ some b
        → IsSettled (record base { current = next })
    unfolding base
    user_user a b e g =
        settles s i _ next a refl ne (ready-mm next) (λ q x y. ready-active next q)
          (ready-active next s.current ∙ i.active ∙ ap some (sym (i.own b g)) ∙ sym g)
          (ready-active next next ∙ i.waiting next ne ∙ e) (λ x f. ground (arith, f, e))

    -- From a kernel thread to a task with a memory: the borrowed memory is given back.
    pub kernel_user :
        (a : ℕ) (c : ℕ → ℤ)
        → (s.task next).mm ≡ some a
        → (s.task s.current).mm ≡ none
        → IsSettled (record base {
          task = put (ready next) s.current (record (ready next s.current) { active_mm = none });
          mm_count = c;
          current = next;
        })
    unfolding base
    kernel_user a c e g =
        settles s i _ next a refl ne (λ q. put-mm (ready next) s.current q none ∙ ready-mm next q)
          (λ q x y. put_other (ready next) s.current q none x ∙ ready-active next q)
          (put_same (ready next) s.current none ∙ sym g)
          (put_other (ready next) s.current next none ne
            ∙ ready-active next next
            ∙ i.waiting next ne
            ∙ e)
          (λ x f. ground (arith, f, e))

    -- From a task with a memory to a kernel thread, which borrows it.
    pub user_kernel :
        (b : ℕ)
        → (s.task next).mm ≡ none
        → (s.task s.current).mm ≡ some b
        → IsSettled (record lent { current = next })
    unfolding lent base
    user_kernel b e g =
        settles s i _ next i.memory refl ne
          (λ q. put-mm (ready next) next q (some i.memory) ∙ ready-mm next q)
          (λ q x y. put_other (ready next) next q (some i.memory) y ∙ ready-active next q)
          (put_other (ready next) next s.current (some i.memory) (λ w. ne (sym w))
            ∙ ready-active next s.current
            ∙ i.active
            ∙ ap some (sym (i.own b g))
            ∙ sym g)
          (put_same (ready next) next (some i.memory)) (λ x f. cc)

    -- Between two kernel threads the memory is passed on.
    pub kernel_kernel :
        (c : ℕ → ℤ)
        → (s.task next).mm ≡ none
        → (s.task s.current).mm ≡ none
        → IsSettled (record lent {
          task = put lent.task s.current (record (lent.task s.current) { active_mm = none });
          mm_count = c;
          current = next;
        })
    unfolding lent base
    kernel_kernel c e g =
        settles s i _ next i.memory refl ne
          (λ q.
            put-mm lent.task s.current q none
            ∙ put-mm (ready next) next q (some i.memory)
            ∙ ready-mm next q)
          (λ q x y.
            put_other lent.task s.current q none x
            ∙ put_other (ready next) next q (some i.memory) y
            ∙ ready-active next q)
          (put_same lent.task s.current none ∙ sym g)
          (put_other lent.task s.current next none ne ∙ put_same (ready next) next (some i.memory))
          (λ x f. cc)

    -- The last test, on the memory of the task that is left.
    gives :
        (u : Switch) (pm om : Option ℕ)
        → (u.task s.current).mm ≡ pm
        → finish s.current next om (switched u) ≡ give_back u s.current next pm om
    unfolding finish
    gives u pm om e = ap (λ (x : Option ℕ). give_back u s.current next x om) e

    base-mm : (base.task s.current).mm ≡ (s.task s.current).mm
    unfolding base
    base-mm = ready-mm next s.current

    lent-mm : (lent.task s.current).mm ≡ (s.task s.current).mm
    unfolding lent base
    lent-mm = put-mm (ready next) next s.current (some i.memory) ∙ ready-mm next s.current

    -- After the first test, for a task with a memory and for a kernel thread.
    pub from_user :
        (a : ℕ) (pm : Option ℕ)
        → (s.task next).mm ≡ some a
        → (s.task s.current).mm ≡ pm
        → switch_task task_set_cpu s next ≡ give_back base s.current next pm (some i.memory)
    unfolding borrow base
    from_user a pm e g =
        let same : (if a == a then switched base else bug) ≡ switched base = ground arith in
        reads next (some a) (some a) (some i.memory) e (i.waiting next ne ∙ e) i.active
        ∙ ap (finish s.current next (some i.memory)) same
        ∙ gives base pm (some i.memory) (base-mm ∙ g)

    pub from_kernel :
        (pm : Option ℕ)
        → (s.task next).mm ≡ none
        → (s.task s.current).mm ≡ pm
        → switch_task task_set_cpu s next ≡ give_back lent s.current next pm (some i.memory)
    unfolding borrow lent base
    from_kernel pm e g =
        reads next none none (some i.memory) e (i.waiting next ne ∙ e) i.active
        ∙ gives lent pm (some i.memory) (lent-mm ∙ g)
