-- ===== src/Sched/Choose/Tests.antt =====
-- The theorems on `choose_task` at small sets of users.
use os_design.Prelude.{ℕ, ◌≡◌, ◌⊎◌, refl, List, [], ◌∷◌, none, some, arith}
use os_design.Sched.Choose.{
  Proc, User, Users, choose_task, fresh, try_root, try_others, reset_users, reset_all,
}
use os_design.Sched.Choose.Total.{choose_task-total, choose_task-livelock}
use os_design.Sched.Choose.Laws.{UsersInQuota, choose_task-InQuota}
use os_design.Sched.Choose.Owner.{In, tasks, first_tasks, choose_task-owner}

abbrev spent : ℕ → ℕ → Proc
spent t super = record { task = t; has_run = 0; super = super }

abbrev user_of : ℕ → List Proc → User
user_of n ps = record { has_run = n; procs = ps }

-- Root has a process and a super process, two users have one process each; all counters are spent.
abbrev all_spent : Users
all_spent = record {
  root = user_of 0 (spent 10 0 ∷ spent 11 1 ∷ []);
  others = user_of 0 (spent 20 0 ∷ []) ∷ user_of 0 (spent 30 0 ∷ []) ∷ [];
}

-- The first user's process runs, and keeps its counter.
abbrev after_choice : Users
after_choice = record {
  root = user_of 0 (spent 10 0 ∷ record { task = 11; has_run = 2; super = 1 } ∷ []);
  others =
      user_of 0 (record { task = 20; has_run = 1; super = 0 } ∷ [])
      ∷ user_of 1 (record { task = 30; has_run = 1; super = 0 } ∷ [])
      ∷ [];
}

first_choice : choose_task 3 (fresh all_spent) ≡ some (20, after_choice)
unfolding choose_task try_root try_others reset_users reset_all
first_choice = refl

choose_task-total_example :
    (t : ℕ) × (us : Users) × (choose_task 3 (fresh all_spent) ≡ some (t, us))
choose_task-total_example =
    choose_task-total 3 all_spent (spent 10 0) (spent 11 1 ∷ []) (omega arith) refl

-- Root has no process; another user has one that could run.
abbrev no_root : Users
no_root = record {
  root = user_of 1 [];
  others = user_of 1 (record { task = 20; has_run = 1; super = 0 } ∷ []) ∷ [];
}

choose_task-livelock_example : choose_task 1000 (fresh no_root) ≡ none
choose_task-livelock_example = choose_task-livelock 1000 no_root refl

choose_task-InQuota_example : UsersInQuota after_choice
choose_task-InQuota_example =
    choose_task-InQuota 3 all_spent 20 after_choice (omega arith) first_choice

choose_task-owner_example :
    In 20 (tasks all_spent.root.procs) ⊎ In 20 (first_tasks all_spent.others)
choose_task-owner_example = choose_task-owner 3 all_spent 20 after_choice first_choice
