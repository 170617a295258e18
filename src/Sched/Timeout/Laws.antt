-- ===== src/Sched/Timeout/Laws.antt =====
-- `schedule_timeout` in its three cases.
use os_design.Prelude.{ℕ, ◌+◌, ◌-◌, ◌%◌, ◌^◌, ◌<◌, ◌≡◌, ◌≢◌, [], ◌∷◌, arith, dec_le}
use os_design.Prelude.Int.{ℤ, pos, ◌≤ℤ◌, ◌<ℤ◌}
use os_design.Sched.Timeout.{
  add_timer, schedule, del_timer_sync, set_running, to_signed, remaining, schedule_timeout,
}

left :
    (n before elapsed : ℕ)
    → n < 2 ^ 63
    → elapsed < 2 ^ 63
    → before < 2 ^ 64
    → remaining ((n + before) % 2 ^ 64) ((before + elapsed) % 2 ^ 64) ≡ pos (n - elapsed)
unfolding remaining to_signed
left n before elapsed hn he hb = elim (dec_le elapsed n) [
  | yes early ↦
      let e : ((n + before) % 2 ^ 64 + 2 ^ 64 - (before + elapsed) % 2 ^ 64) % 2 ^ 64
          ≡ n - elapsed =
        omega arith in
      rw e (ground arith)
  | no late ↦
      let e : ((n + before) % 2 ^ 64 + 2 ^ 64 - (before + elapsed) % 2 ^ 64) % 2 ^ 64
          ≡ 2 ^ 64 - (elapsed - n) =
        omega arith in
      rw e (ground arith)
]

module _ (max timeout : ℤ) (before elapsed : ℕ) where
  -- The task sleeps for fewer than 2 ^ 63 ticks, and `jiffies` may wrap around meanwhile. With the
  -- greatest timeout, not negative, no timer is set and that timeout is returned. With a negative one
  -- nothing is done but making the task running, and 0 is returned. With any other below 2 ^ 63 the
  -- timer is added before and deleted after the task schedules, and what is left of the timeout is
  -- returned, 0 if it has passed.
  pub schedule_timeout_lem :
      pos 0 ≤ℤ max
      → timeout <ℤ pos (2 ^ 63)
      → before < 2 ^ 64
      → elapsed < 2 ^ 63
      → (timeout ≡ max
          → schedule_timeout max before ((before + elapsed) % 2 ^ 64) timeout
            ≡ (max, schedule ∷ []))
        × (timeout <ℤ pos 0
            → schedule_timeout max before ((before + elapsed) % 2 ^ 64) timeout
              ≡ (pos 0, set_running ∷ []))
        × ((n : ℕ)
            → timeout ≡ pos n
            → timeout ≢ max
            → schedule_timeout max before ((before + elapsed) % 2 ^ 64) timeout ≡ (
              pos (n - elapsed),
              add_timer ((n + before) % 2 ^ 64) ∷ schedule ∷ del_timer_sync ∷ [],
            ))
  unfolding schedule_timeout
  schedule_timeout_lem hm ht hb he = (
    λ e. ground (arith, e, hm),
    λ e. ground (arith, e, hm),
    λ n e ne. ground (arith, e, ne, left n before elapsed (ground (arith, e, ht)) he hb),
  )
