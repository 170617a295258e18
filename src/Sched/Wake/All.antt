-- ===== src/Sched/Wake/All.antt =====
-- `__wake_up_common` without a limit: every waiter is woken.
use os_design.Prelude.{
  ℕ, ◌≡◌, refl, ◌∙◌, List, [], ◌∷◌, Bool, arith, inl, inr, Bool-cases, ℕ_discrete, bit_and,
}
use os_design.Prelude.Int.{ℤ, pos, ◌-ℤ◌, ◌≤ℤ◌, int_laws, -ℤ_parts}
use os_design.Sched.Task.{Headers}
use os_design.Sched.Idle.{Cpus, Kernel}
use os_design.Sched.Wake.{Waiter, wake_up_common}
use os_design.Sched.Wake.Queue.{IsQueue}
use os_design.Sched.Wake.Common.{sleeps, wake_one, wake_each, counts-cases, turn_free, turn_down}
use os_design.Sched.Wake.Laws.{try_to_wake_up-Woken}

module _ (h : Headers) (cpus : Cpus) (mode : ℕ) (sync : Bool) where
  -- A limit of 0 or below never stops the loop: every waiter whose state is in the mask is woken.
  pub wake_up_common-all :
      (k : Kernel) (ws : List Waiter) (nr : ℤ)
      → nr ≤ℤ pos 0
      → wake_up_common h cpus k ws mode nr sync ≡ wake_each h cpus mode sync k ws
  unfolding wake_each
  wake_up_common-all k [] nr low = unfold wake_up_common in refl
  wake_up_common-all k (w ∷ ws) nr low = elim (counts-cases h cpus mode sync k w) [
    | inl free ↦
        turn_free h cpus mode sync k w ws nr free
        ∙ wake_up_common-all (wake_one h cpus mode sync k w) ws nr low
    | inr one ↦
        turn_down h cpus mode sync k w ws nr one (ground (arith, -ℤ_parts nr (pos 1)))
        ∙ wake_up_common-all (wake_one h cpus mode sync k w) ws (nr -ℤ pos 1) (omega int_laws)
  ]

  wake_one-IsQueue : (k : Kernel) (w : Waiter) → IsQueue k → IsQueue (wake_one h cpus mode sync k w)
  unfolding wake_one
  wake_one-IsQueue k w q = elim (Bool-cases (sleeps h cpus mode sync k w)) [
    | inl yes' ↦ rw yes' ((try_to_wake_up-Woken h cpus k w.task sync).valid q)
    | inr no' ↦ rw no' q
  ]

  pub wake_each-IsQueue :
      (k : Kernel) (ws : List Waiter) → IsQueue k → IsQueue (wake_each h cpus mode sync k ws)
  unfolding wake_each
  wake_each-IsQueue k [] q = q
  wake_each-IsQueue k (w ∷ ws) q =
      wake_each-IsQueue (wake_one h cpus mode sync k w) ws (wake_one-IsQueue k w q)

  -- A task that is not in the mask stays so.
  pub wake_one-awake :
      (k : Kernel) (w : Waiter) (q : ℕ)
      → bit_and (k.task q).state mode ≡ 0
      → bit_and ((wake_one h cpus mode sync k w).task q).state mode ≡ 0
  unfolding wake_one
  wake_one-awake k w q out = elim (Bool-cases (sleeps h cpus mode sync k w)) [
    | inr stays ↦ rw stays out
    | inl wakes ↦
        let r = try_to_wake_up-Woken h cpus k w.task sync in
        elim (ℕ_discrete w.task q) [
          | yes same ↦ rw (wakes, ← same, r.runs) (h.running-mask mode)
          | no other ↦ rw (wakes, r.others q other) out
        ]
  ]

  pub wake_one_self :
      (k : Kernel) (w : Waiter)
      → bit_and ((wake_one h cpus mode sync k w).task w.task).state mode ≡ 0
  unfolding wake_one
  wake_one_self k w = elim (Bool-cases (sleeps h cpus mode sync k w)) [
    | inr stays ↦ rw stays (ground arith)
    | inl wakes ↦ rw (wakes, (try_to_wake_up-Woken h cpus k w.task sync).runs) (h.running-mask mode)
  ]

  pub wake_each-awake :
      (k : Kernel) (ws : List Waiter) (q : ℕ)
      → bit_and (k.task q).state mode ≡ 0
      → bit_and ((wake_each h cpus mode sync k ws).task q).state mode ≡ 0
  unfolding wake_each
  wake_each-awake k [] q out = out
  wake_each-awake k (w ∷ ws) q out =
      wake_each-awake (wake_one h cpus mode sync k w) ws q (wake_one-awake k w q out)

  abbrev pub NoneSleeps : Kernel → List Waiter → Type 0
  NoneSleeps k [] = Unit {0}
  NoneSleeps k (w ∷ ws) = (bit_and (k.task w.task).state mode ≡ 0) × NoneSleeps k ws

  pub wake_each-NoneSleeps :
      (k : Kernel) (ws : List Waiter) → NoneSleeps (wake_each h cpus mode sync k ws) ws
  unfolding wake_each
  wake_each-NoneSleeps k [] = tt
  wake_each-NoneSleeps k (w ∷ ws) = (
    wake_each-awake (wake_one h cpus mode sync k w) ws w.task (wake_one_self k w),
    wake_each-NoneSleeps (wake_one h cpus mode sync k w) ws,
  )

  -- A limit of 0 or below wakes all: no waiter of the list is left in a state of the mask, and the
  -- run queue keeps each task once and the count right.
  pub wake_up_common-NoneSleeps :
      (k : Kernel) (ws : List Waiter) (nr : ℤ)
      → nr ≤ℤ pos 0
      → IsQueue k
      → NoneSleeps (wake_up_common h cpus k ws mode nr sync) ws
        × IsQueue (wake_up_common h cpus k ws mode nr sync)
  wake_up_common-NoneSleeps k ws nr low q =
      rw (wake_up_common-all k ws nr low) (wake_each-NoneSleeps k ws, wake_each-IsQueue k ws q)
