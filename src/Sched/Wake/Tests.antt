-- ===== src/Sched/Wake/Tests.antt =====
-- The theorems on wake-ups at two sleeping tasks.
use os_design.Prelude.{◌≡◌, refl, List, [], ◌∷◌, true, false}
use os_design.Prelude.Int.{pos}
use os_design.Sched.Samples.{linux, shell, single}
use os_design.Sched.Idle.{Kernel}
use os_design.Sched.Wake.{Waiter, try_to_wake_up, wake_up_common, task_on_runqueue}
use os_design.Sched.Wake.Queue.{IsQueue}
use os_design.Sched.Wake.Laws.{Woken, try_to_wake_up-Woken}
use os_design.Sched.Wake.Common.{Woke, wake_up_common-Woke}

-- Task 1 runs, and the tasks 2 and 3 sleep.
abbrev asleep : Kernel
asleep = record {
  task = λ q. record shell { state = 1 };
  queue = 1 ∷ 4 ∷ [];
  nr_running = 2;
  curr = λ c. 1;
  last = λ c. 0;
  sent = [];
}

asleep-IsQueue : IsQueue asleep
unfolding task_on_runqueue
asleep-IsQueue = record { once = (refl, (refl, tt)); counted = refl }

abbrev waiters : List Waiter
waiters = record { task = 2; flags = 1 } ∷ record { task = 3; flags = 1 } ∷ []

try_to_wake_up-Woken_example :
    Woken linux single asleep 2
      (try_to_wake_up linux single asleep 2 false).0
      (try_to_wake_up linux single asleep 2 false).1
try_to_wake_up-Woken_example = try_to_wake_up-Woken linux single asleep 2 false

wake_up_common-Woke_example :
    Woke linux single 3 false asleep waiters 1
      (wake_up_common linux single asleep waiters 3 (pos 1) false)
wake_up_common-Woke_example = wake_up_common-Woke linux single 3 false asleep waiters 0

one_on_queue : task_on_runqueue (1 ∷ 4 ∷ []) 1 ≡ true
unfolding task_on_runqueue
one_on_queue = refl
