-- ===== src/Sched/Timeout/Tests.antt =====
-- A timeout of 100 ticks, of which 40 pass while `jiffies` wraps around.
use os_design.Prelude.{ℕ, ◌+◌, ◌-◌, ◌%◌, ◌^◌, ◌≡◌, ◌≢◌, [], ◌∷◌, arith}
use os_design.Prelude.Int.{ℤ, pos, ◌<ℤ◌}
use os_design.Sched.Timeout.{add_timer, schedule, del_timer_sync, set_running, schedule_timeout}
use os_design.Sched.Timeout.Laws.{schedule_timeout_lem}

abbrev max : ℤ
max = pos (2 ^ 63 - 1)

abbrev now : ℕ
now = 2 ^ 64 - 10

schedule_timeout_lem_example :
    (pos 100 ≡ max
      → schedule_timeout max now ((now + 40) % 2 ^ 64) (pos 100) ≡ (max, schedule ∷ []))
    × (pos 100 <ℤ pos 0
        → schedule_timeout max now ((now + 40) % 2 ^ 64) (pos 100) ≡ (pos 0, set_running ∷ []))
    × ((n : ℕ)
        → pos 100 ≡ pos n
        → pos 100 ≢ max
        → schedule_timeout max now ((now + 40) % 2 ^ 64) (pos 100)
          ≡ (pos (n - 40), add_timer ((n + now) % 2 ^ 64) ∷ schedule ∷ del_timer_sync ∷ []))
schedule_timeout_lem_example =
    schedule_timeout_lem max (pos 100) now 40 (omega arith) (omega arith) (omega arith)
      (omega arith)
