-- ===== src/Sched/Completion/Awake.antt =====
-- How many waiters of a completion have been woken.
use os_design.Prelude.{
  ℕ, ◌+◌, ◌≤◌, ◌≡◌, refl, ap, ◌∙◌, ◌⊎◌, inl, inr, List, [], ◌∷◌, ◌++◌, length, length-append, false,
  ◌==◌, if◌then◌else◌, Bool-cases, bit_and, bit_or, arith,
}
use os_design.Sched.Task.{Headers}
use os_design.Sched.Idle.{Cpus, Kernel}
use os_design.Sched.Wake.{Waiter}
use os_design.Sched.Wake.Common.{wake_one, counts, wake_each, count_each, Woke}
use os_design.Sched.Wake.All.{wake_one-awake, wake_one_self, wake_each-awake}
use os_design.Sched.Completion.{remove_waiter}

whole : (ws a b : List Waiter) → ws ≡ a ++ b → b ≡ [] → length ws ≡ length a
whole ws a b e none_left =
    ap (λ (l : List Waiter). length l) e ∙ rw none_left (omega (arith, length-append a []))

module _ (h : Headers) (cpus : Cpus) where
  -- The states that `complete` wakes.
  abbrev pub mode : ℕ
  mode = bit_or h.task_uninterruptible h.task_interruptible

  abbrev pub awake_bit : Kernel → Waiter → ℕ
  awake_bit k w = if bit_and (k.task w.task).state mode == 0 then 1 else 0

  -- How many waiters of a queue have been woken.
  unfoldable pub awake : Kernel → List Waiter → ℕ
  awake k [] = 0
  awake k (w ∷ ws) = awake_bit k w + awake k ws

  awake-le : (k : Kernel) (ws : List Waiter) → awake k ws ≤ length ws
  unfolding awake
  awake-le k [] = omega arith
  awake-le k (w ∷ ws) = ground (arith, awake-le k ws)

  -- No task falls asleep from `k` to `k'`.
  abbrev pub Wakens : Kernel → Kernel → Type 0
  Wakens k k' = (t : ℕ) → bit_and (k.task t).state mode ≡ 0 → bit_and (k'.task t).state mode ≡ 0

  pub awake-Wakens : (k k' : Kernel) → Wakens k k' → (ws : List Waiter) → awake k ws ≤ awake k' ws
  unfolding awake
  awake-Wakens k k' f [] = omega arith
  awake-Wakens k k' f (w ∷ ws) = ground (arith, f w.task, awake-Wakens k k' f ws)

  awake-append : (k : Kernel) (a b : List Waiter) → awake k (a ++ b) ≡ awake k a + awake k b
  unfolding awake
  awake-append k [] b = omega arith
  awake-append k (w ∷ a) b = ground (arith, awake-append k a b)

  counts_sleeper : (k : Kernel) (w : Waiter) → awake_bit k w + counts h cpus mode false k w ≤ 1
  unfolding counts
  counts_sleeper k w = ground arith

  -- Those that are counted slept before.
  awake-each :
      (k : Kernel) (ws : List Waiter)
      → awake k ws + count_each h cpus mode false k ws ≤ awake (wake_each h cpus mode false k ws) ws
  unfolding awake count_each wake_each
  awake-each k [] = omega arith
  awake-each k (w ∷ ws) =
      let k1 = wake_one h cpus mode false k w in
      let self =
        wake_each-awake h cpus mode false k1 ws w.task (wake_one_self h cpus mode false k w) in
      ground (
        arith,
        self,
        counts_sleeper k w,
        awake-Wakens k k1 (wake_one-awake h cpus mode false k w) ws,
        awake-each k1 ws,
      )

  wake_each-Wakens : (k : Kernel) (ws : List Waiter) → Wakens k (wake_each h cpus mode false k ws)
  wake_each-Wakens k ws t out = wake_each-awake h cpus mode false k ws t out

  -- The waiters that the loop went over are all awake.
  all_awake :
      (k : Kernel) (ws : List Waiter) → length ws ≤ awake (wake_each h cpus mode false k ws) ws
  unfolding awake wake_each
  all_awake k [] = omega arith
  all_awake k (w ∷ ws) =
      let k1 = wake_one h cpus mode false k w in
      ground (
        arith,
        wake_each-awake h cpus mode false k1 ws w.task (wake_one_self h cpus mode false k w),
        all_awake k1 ws,
      )

  -- `complete` wakes one waiter more, or all of them are awake.
  pub woken-awake :
      (k k' : Kernel) (ws : List Waiter)
      → Woke h cpus mode false k ws 1 k'
      → (awake k ws + 1 ≤ awake k' ws) ⊎ (length ws ≤ awake k' ws)
  woken-awake k k' ws w =
      let last : Kernel = wake_each h cpus mode false k w.first in
      let before : awake k ws ≡ awake k w.first + awake k w.rest =
        ap (awake k) w.split ∙ awake-append k w.first w.rest in
      let behind : awake k' ws ≡ awake last w.first + awake last w.rest =
        ap (λ (q : Kernel). awake q ws) w.result
        ∙ ap (awake last) w.split
        ∙ awake-append last w.first w.rest in
      let rest = awake-Wakens k last (wake_each-Wakens k w.first) w.rest in
      let first = awake-each k w.first in
      elim w.limit [
        | inl all ↦
            let none_left : length ws ≡ length w.first = whole ws w.first w.rest w.split all in
            inr (omega (arith, all_awake k w.first, none_left, behind))
        | inr full ↦ inl (omega (arith, full, first, rest, before, behind))
      ]

  -- A waiter that is taken out takes at most itself along.
  pub remove-awake :
      (k : Kernel) (ws : List Waiter) (t : ℕ)
      → (awake k ws ≤ awake k (remove_waiter ws t) + 1)
        × (((awake k (remove_waiter ws t) ≡ awake k ws) × (length (remove_waiter ws t) ≡ length ws))
            ⊎ (length (remove_waiter ws t) + 1 ≡ length ws))
  unfolding awake remove_waiter
  remove-awake k [] t = (omega arith, inl (refl, refl))
  remove-awake k (w ∷ ws) t = elim (Bool-cases (w.task == t)) [
    | inl found ↦ rw found (ground arith, inr (omega arith))
    | inr other ↦
        let (some', rest) = remove-awake k ws t in
        rw other (
          omega (arith, some'),
          elim rest [
            | inl same ↦ inl (omega (arith, same.0), omega (arith, same.1))
            | inr less ↦ inr (omega (arith, less))
          ],
        )
  ]
