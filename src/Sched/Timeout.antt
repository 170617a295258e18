-- ===== src/Sched/Timeout.antt =====
-- Project_2/stuff/sched.c: `schedule_timeout`. The ticks are counted by `jiffies`, an
-- `unsigned long` of 64 bits, which is read before and after the task sleeps.
pub mod Laws
mod Tests
use os_design.Prelude.{ℕ, ◌+◌, ◌-◌, ◌%◌, ◌^◌, List, [], ◌∷◌, Bool, ltb, if◌then◌else◌}
use os_design.Prelude.Int.{ℤ, pos, negsuc, lt_ℤ, eq_ℤ, pos_part}

-- What the routine does, in order.
pub data Effect : Type 0 where
  add_timer : (expires : ℕ) → Effect
  schedule del_timer_sync set_running : Effect

-- The value of 64 bits as a `signed long`.
pub to_signed : ℕ → ℤ
to_signed n = if ltb n (2 ^ 63) then pos n else negsuc (2 ^ 64 - 1 - n)

-- `expire - jiffies`, and the last test.
pub remaining : ℕ → ℕ → ℤ
unfolding to_signed
remaining expire jiffies =
    let timeout = to_signed ((expire + 2 ^ 64 - jiffies) % 2 ^ 64) in
    if lt_ℤ timeout (pos 0) then pos 0 else timeout

module _ (max_schedule_timeout : ℤ) (before after : ℕ) where
  unfoldable pub schedule_timeout : ℤ → ℤ × List Effect
  unfolding remaining
  schedule_timeout timeout =
      let expire = (pos_part timeout + before) % 2 ^ 64 in
      if eq_ℤ timeout max_schedule_timeout
      then ((if lt_ℤ timeout (pos 0) then pos 0 else timeout), schedule ∷ [])
      else if lt_ℤ timeout (pos 0)
      then (pos 0, set_running ∷ [])
      else (remaining expire after, add_timer expire ∷ schedule ∷ del_timer_sync ∷ [])
