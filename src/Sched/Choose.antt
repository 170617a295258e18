-- ===== src/Sched/Choose.antt =====
-- Project_2/stuff/sched.c, `schedule`: the choice of the next task by user and by process counters.
-- `root_user` stands apart from the list of the other users, as it does in the code: it is the
-- entry that the list's head belongs to, and `list_for_each` visits the others.
-- The counters `hasRun` are tested for being positive, decremented when they are, and set to 1 or
-- 2: numbers stand for them.
pub mod Laws
pub mod Total
pub mod Owner
mod Tests
use os_design.Prelude.{
  ℕ, zero, suc, ◌+◌, ◌-◌, ◌≡◌, List, [], ◌∷◌, map, Bool, true, false, Option, none, some, ltb, ◌==◌,
  if◌then◌else◌,
}

-- The fields of `struct task_struct` that the choice reads and writes, and the task's address.
pub record Proc : Type 0 where
  pub task : ℕ
  pub has_run : ℕ
  pub super : ℕ

pub record User : Type 0 where
  pub has_run : ℕ
  pub procs : List Proc

pub record Users : Type 0 where
  pub root : User
  pub others : List User

-- What the local variables of `schedule` hold besides.
pub record Choice : Type 0 where
  pub users : Users
  pub run_task : Option ℕ
  pub count : ℕ

-- The loop over root's processes: the first with a positive counter, which is decremented.
pub take_first : List Proc → Option ℕ → Option ℕ × List Proc
take_first [] run = (run, [])
take_first (p ∷ ps) run =
    let rest = take_first ps run in
    if ltb 0 p.has_run
    then (some p.task, record p { has_run = p.has_run - 1 } ∷ ps)
    else (rest.0, p ∷ rest.1)

-- The loop over another user's processes: here no counter is decremented.
pub find_first : List Proc → Option ℕ → Option ℕ
find_first [] run = run
find_first (p ∷ ps) run =
    let rest = find_first ps run in if ltb 0 p.has_run then some p.task else rest

pub try_root : Choice → Choice
unfolding take_first
try_root c =
    if ltb 0 c.users.root.has_run
    then (let (run, ps) = take_first c.users.root.procs c.run_task in
        record {
          users = record {
            root = record { has_run = c.users.root.has_run - 1; procs = ps };
            others = c.users.others;
          };
          run_task = run;
          count = c.count + 1;
        })
    else c

-- One user in the loop over the others.
pub try_user : User → Option ℕ → ℕ → Option ℕ × ℕ × User
unfolding find_first
try_user u run count =
    if ltb 0 u.has_run
    then (find_first u.procs run, count + 1, record u { has_run = u.has_run - 1 })
    else (run, count, u)

-- The loop, left as soon as there is a task to run.
pub try_users : List User → Option ℕ → ℕ → Option ℕ × ℕ × List User
unfolding try_user
try_users [] run count = (run, count, [])
try_users (u ∷ us) run count =
    let (run', count', u') = try_user u run count in
    let (run'', count'', us') = try_users us run' count' in
    elim run' [ some t ↦ (some t, count', u' ∷ us) | none ↦ (run'', count'', u' ∷ us') ]

-- `if(run_task != NULL)`: the other users are tried when root has a task.
pub try_others : Choice → Choice
unfolding try_users
try_others c = elim c.run_task [
  | none ↦ c
  | some t ↦
      let (run, count, us) = try_users c.users.others (some t) c.count in
      record { users = record { root = c.users.root; others = us }; run_task = run; count = count }
]

pub refill_user : User → User
refill_user u = record u { has_run = 1 }

pub refill_proc : Proc → Proc
refill_proc p = if p.super == 1 then record p { has_run = 2 } else record p { has_run = 1 }

-- `reset all of the user counters`.
pub reset_users : Users → Users
unfolding refill_user
reset_users us = record { root = refill_user us.root; others = map refill_user us.others }

pub refill_all : User → User
unfolding refill_proc
refill_all u = record { has_run = 1; procs = map refill_proc u.procs }

-- `reset all counters`.
pub reset_all : Users → Users
unfolding refill_all
reset_all us = record { root = refill_all us.root; others = map refill_all us.others }

-- From the label `choose_task` to the first test of `count`.
abbrev pub pass : Choice → Choice
pass c = try_others (try_root c)

-- From the label `choose_task` to the second `goto`, with fuel for the jumps: the task to run next
-- and the counters, or `none` when the fuel ran out. `count` and `run_task` outlive a jump.
pub choose_task : ℕ → Choice → Option (ℕ × Users)
choose_task zero c = none
choose_task (suc fuel) c =
    let again_users = choose_task fuel (record (pass c) { users = reset_users (pass c).users }) in
    let again_all = choose_task fuel (record (pass c) { users = reset_all (pass c).users }) in
    if (pass c).count == 0
    then again_users
    else elim (pass c).run_task [ some t ↦ some (t, (pass c).users) | none ↦ again_all ]

-- `schedule` enters with no task chosen and a count of 0.
abbrev pub fresh : Users → Choice
fresh us = record { users = us; run_task = none; count = 0 }
