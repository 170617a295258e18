-- ===== src/Sched/Completion/Tests.antt =====
-- A task that waits for a completion, another that completes it, and the return of the first.
use os_design.Prelude.{◌+◌, ◌≤◌, ◌≡◌, ◌⊎◌, refl, [], ◌∷◌, length, ℕ_discrete}
use os_design.Sched.Samples.{linux, shell, single, two-ne-zero}
use os_design.Sched.Idle.{Kernel}
use os_design.Sched.Completion.{System, begin_wait, Reach, here, next, enters, signals, leaves}
use os_design.Sched.Completion.Awake.{awake}
use os_design.Sched.Completion.Laws.{completion_lem}

abbrev busy : Kernel
busy = record {
  task = λ q. shell;
  queue = 1 ∷ 2 ∷ 3 ∷ [];
  nr_running = 3;
  curr = λ c. 1;
  last = λ c. 0;
  sent = [];
}

-- Tasks 2 and 3 wait, 2 leaves the run queue, and one call of `complete` comes.
signalled : (s : System) × Reach linux single busy s
unfolding begin_wait ℕ_discrete
signalled = (
  _,
  next (next (next (next here (enters 2 refl)) (enters 3 refl)) (leaves 2 two-ne-zero)) signals,
)

completion_lem_example :
    (signalled.0.x.done + signalled.0.returned ≡ signalled.0.completed)
    × ((signalled.0.x.done ≤ awake linux single signalled.0.kernel signalled.0.x.wait)
        ⊎ (length signalled.0.x.wait ≤ awake linux single signalled.0.kernel signalled.0.x.wait))
completion_lem_example = completion_lem linux single signalled.1
