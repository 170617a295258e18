-- ===== src/Sched/Switch.antt =====
-- Project_2/stuff/sched.c: the end of `schedule`, from the choice of the task to the switch.
-- `task_set_cpu` and the switch of the page tables are code of the kernel's headers: the first is a
-- parameter, the second leaves no trace in what is modelled. A NULL memory that is counted is a crash.
pub mod Settled
pub mod Cases
pub mod Loan
pub mod Laws
mod Tests
use os_design.Prelude.{ℕ, ◌+◌, ◌==◌, Bool, Option, none, some, if◌then◌else◌}
use os_design.Prelude.Int.{ℤ, pos, ◌+ℤ◌, ◌-ℤ◌}
use os_design.Sched.Task.{Task}
use os_design.Sched.Idle.{put}

-- The tasks, `current`, the counts `mm_count` of the memories and `kstat.context_swtch`.
pub record Switch : Type 0 where
  pub task : ℕ → Task
  pub current : ℕ
  pub mm_count : ℕ → ℤ
  pub context_swtch : ℕ

pub data Outcome : Type 0 where
  bug : Outcome
  switched : Switch → Outcome

abbrev pub count : (ℕ → ℤ) → ℕ → ℤ → ℕ → ℤ
count f mm v m = if mm == m then v else f m

-- `if (!mm) ... else ...`, for the memory of `next`, its `active_mm` and `oldmm`.
pub borrow : Switch → ℕ → Option ℕ → Option ℕ → Option ℕ → Outcome
borrow s next none (some a) oldmm = bug
borrow s next none none none = bug
borrow s next none none (some old) = switched (record s {
  task = put s.task next (record (s.task next) { active_mm = some old });
  mm_count = count s.mm_count old (s.mm_count old +ℤ pos 1);
})
borrow s next (some mm) none oldmm = bug
borrow s next (some mm) (some a) oldmm = if a == mm then switched s else bug

-- `if (!prev->mm)`, and `current` after `switch_to`.
pub give_back : Switch → ℕ → ℕ → Option ℕ → Option ℕ → Outcome
give_back s prev next (some mm) oldmm = switched (record s { current = next })
give_back s prev next none none = bug
give_back s prev next none (some old) = switched (record s {
  task = put s.task prev (record (s.task prev) { active_mm = none });
  mm_count = count s.mm_count old (s.mm_count old -ℤ pos 1);
  current = next;
})

-- From the first test on to the end.
pub finish : ℕ → ℕ → Option ℕ → Outcome → Outcome
unfolding give_back
finish prev next oldmm bug = bug
finish prev next oldmm (switched u) = give_back u prev next (u.task prev).mm oldmm

module _ (task_set_cpu : Task → ℕ → Task) where
  pub switch_task : Switch → ℕ → Outcome
  unfolding borrow finish
  switch_task s next =
      let prev = s.current in
      let set = put s.task next (task_set_cpu (s.task next) (s.task prev).processor) in
      let oldmm = (set prev).active_mm in
      let ready : Switch = record s { task = set; context_swtch = s.context_swtch + 1 } in
      finish prev next oldmm (borrow ready next (set next).mm (set next).active_mm oldmm)
