-- ===== src/Sched/Policy/Set.antt =====
-- `setscheduler`: who may set what, and what a call leaves.
use os_design.Prelude.{
  ℕ, ◌≡◌, ◌≢◌, ◌≤◌, refl, true, false, ◌||◌, arith, inl, inr, ◌⊎◌, Bool-cases, Option, sym, ap, ◌∙◌,
  bit_or, none, some, bit_and,
}
use mathlib.Core.Path.{subst}
use os_design.Prelude.Int.{ℤ, pos, pos_part, lt_ℤ, ◌≤ℤ◌}
use os_design.Sched.Task.{Headers, Task}
use os_design.Sched.Idle.{Kernel}
use os_design.Sched.Policy.{
  Return, ret, einval, Param, null, unreadable, holds, Env, find_process_by_pid, is, realtime,
  store_policy, check_policy, set_found, sys_sched_setscheduler, sys_sched_setparam,
  sys_sched_get_priority_max, sys_sched_get_priority_min,
}

-- `prio` is between the priorities that the two calls give for the policy.
abbrev pub Between : Return → ℤ → Return → Type 0
Between (ret lo) prio (ret hi) = (lo ≤ℤ prio) × (prio ≤ℤ hi)
Between _ prio _ = ⊥

module _ (h : Headers) (env : Env) (k : Kernel) where
  -- What a call that returns 0 has checked.
  pub record Allowed (p : ℕ) (policy prio : ℤ) : Type 0 where
    pub known : (realtime h env policy || is h env policy h.sched_other) ≡ true
    pub between :
        Between
          (sys_sched_get_priority_min h env policy)
          prio
          (sys_sched_get_priority_max h env policy)
    pub rights :
        (env.capable ≡ true)
        ⊎ ((realtime h env policy ≡ false)
            × (((k.task env.current).euid ≡ (k.task p).euid)
                ⊎ ((k.task env.current).euid ≡ (k.task p).uid)))

  check_policy-ret :
      (p : ℕ) (policy prio : ℤ)
      → (realtime h env policy || is h env policy h.sched_other) ≡ true
      → (check_policy h env k p policy prio).1 ≡ ret (pos 0)
      → Allowed p policy prio
        × ((check_policy h env k p policy prio).0 ≡ store_policy h env k p policy prio)
  unfolding check_policy sys_sched_get_priority_min sys_sched_get_priority_max
  check_policy-ret p policy prio known ok = (
    record {
      known = known;
      between = ground (arith, h.fifo-ne-other, h.rr-ne-other);
      rights = ground arith;
    },
    ground arith,
  )

  set_found-ret :
      (o : Option ℕ) (policy prio : ℤ)
      → pos 0 ≤ℤ policy
      → (set_found h env k o policy prio).1 ≡ ret (pos 0)
      → (p : ℕ) × (o ≡ some p)
        × Allowed p policy prio
        × ((set_found h env k o policy prio).0 ≡ store_policy h env k p policy prio)
  unfolding set_found
  set_found-ret none policy prio given ok = cc
  set_found-ret (some p) policy prio given ok =
      elim (Bool-cases (realtime h env policy || is h env policy h.sched_other)) [
        | inr unknown ↦ cc (rejected p policy prio given unknown ok)
        | inl known ↦
            let same = accepted p policy prio given known in
            let (a, b) =
              check_policy-ret p policy prio known
                (ap (λ (r : Kernel × Return). r.1) (sym same) ∙ ok) in
            (p, refl, a, ap (λ (r : Kernel × Return). r.0) same ∙ b)
      ]
    where
      accepted :
          (p : ℕ) (policy prio : ℤ)
          → pos 0 ≤ℤ policy
          → (realtime h env policy || is h env policy h.sched_other) ≡ true
          → set_found h env k (some p) policy prio ≡ check_policy h env k p policy prio
      accepted p policy prio given known = ground arith

      rejected :
          (p : ℕ) (policy prio : ℤ)
          → pos 0 ≤ℤ policy
          → (realtime h env policy || is h env policy h.sched_other) ≡ false
          → (set_found h env k (some p) policy prio).1 ≡ ret (pos 0)
          → true ≡ false
      rejected p policy prio given unknown ok = ground arith

  -- The task has the policy and the priority, the current one is asked to reschedule, and no other
  -- policy, priority or request has changed, nor has the run queue.
  pub record Stored (p : ℕ) (policy prio : ℤ) (k' : Kernel) : Type 0 where
    pub policy_set : (k'.task p).policy ≡ pos_part policy
    pub priority_set : (k'.task p).rt_priority ≡ pos_part prio
    pub asked : (k'.task env.current).need_resched ≡ pos 1
    pub others :
        (q : ℕ)
        → p ≢ q
        → ((k'.task q).policy ≡ (k.task q).policy)
          × ((k'.task q).rt_priority ≡ (k.task q).rt_priority)
    pub unasked : (q : ℕ) → env.current ≢ q → (k'.task q).need_resched ≡ (k.task q).need_resched
    pub same_queue : k'.queue ≡ k.queue

  store_policy-Stored :
      (p : ℕ) (policy prio : ℤ) → Stored p policy prio (store_policy h env k p policy prio)
  unfolding store_policy
  store_policy-Stored p policy prio = record {
    policy_set = ground arith;
    priority_set = ground arith;
    asked = ground arith;
    others = λ q ne. (ground arith, ground arith);
    unasked = λ q ne. ground arith;
    same_queue = refl;
  }

  -- A `sched_setscheduler` call with a policy from 0 on that returns 0 had a readable parameter and
  -- found a task. The policy is one of the three, the priority lies between what the two priority
  -- calls return for it, and the caller has the capability, or sets the ordinary policy for a task
  -- of its own. The call stored the policy and the priority, and did nothing else but ask the
  -- current task to reschedule.
  pub sys_sched_setscheduler-ret :
      (pid policy : ℤ) (param : Param)
      → pos 0 ≤ℤ policy
      → (sys_sched_setscheduler h env k pid policy param).1 ≡ ret (pos 0)
      → (p : ℕ) × (prio : ℤ) × (param ≡ holds prio)
        × (find_process_by_pid h env pid ≡ some p)
        × Allowed p policy prio
        × ((sys_sched_setscheduler h env k pid policy param).0 ≡ store_policy h env k p policy prio)
        × Stored p policy prio (sys_sched_setscheduler h env k pid policy param).0
  unfolding sys_sched_setscheduler
  sys_sched_setscheduler-ret pid policy null given ok = cc
  sys_sched_setscheduler-ret pid policy unreadable given ok = ground arith
  sys_sched_setscheduler-ret pid policy (holds prio) given ok =
      elim (Bool-cases (lt_ℤ pid (pos 0))) [
        | inl neg ↦ cc (rw neg at ok)
        | inr found ↦
            let (p, e, a, b) =
              set_found-ret (find_process_by_pid h env pid) policy prio given (rw found at ok) in
            (
              p,
              prio,
              refl,
              e,
              a,
              rw found b,
              rw found (subst (Stored p policy prio) (sym b) (store_policy-Stored p policy prio)),
            )
      ]

  -- What the code expects of a task: priority 0 with the ordinary policy, 1 to 99 with another.
  abbrev pub Consistent : Task → Type 0
  Consistent t =
      (t.policy ≡ h.sched_other → t.rt_priority ≡ 0)
      × (t.policy ≢ h.sched_other → (1 ≤ t.rt_priority) × (t.rt_priority ≤ 99))

  store_policy-Consistent :
      (p : ℕ) (policy prio : ℤ)
      → pos 0 ≤ℤ policy
      → Allowed p policy prio
      → Consistent ((store_policy h env k p policy prio).task p)
  unfolding store_policy sys_sched_get_priority_min sys_sched_get_priority_max
  store_policy-Consistent p policy prio given a = (
    λ e. ground (arith, a.known, a.between, h.fifo-ne-other, h.rr-ne-other),
    λ e. ground (arith, a.known, a.between, h.fifo-ne-other, h.rr-ne-other),
  )

  is-yielding :
      (p : ℕ)
      → (k.task p).policy ≡ bit_or h.sched_other h.sched_yield
      → ((k.task p).policy ≢ h.sched_other)
        × ((k.task p).policy ≢ h.sched_fifo)
        × ((k.task p).policy ≢ h.sched_rr)
  is-yielding p e = (
    λ o. h.or-yield (ap (λ (x : ℕ). bit_and x h.sched_yield) (sym e ∙ o) ∙ h.other-yield),
    λ o. h.or-yield (ap (λ (x : ℕ). bit_and x h.sched_yield) (sym e ∙ o) ∙ h.fifo-yield),
    λ o. h.or-yield (ap (λ (x : ℕ). bit_and x h.sched_yield) (sym e ∙ o) ∙ h.rr-yield),
  )

  -- `sched_setparam` on an ordinary task of the caller's own that has yielded: the flag hides the
  -- ordinary policy, so priority 0 is refused with EINVAL, and any priority from 1 to 99 is stored.
  pub setparam_yielding :
      (pid prio : ℤ) (p : ℕ)
      → pos 0 ≤ℤ pid
      → find_process_by_pid h env pid ≡ some p
      → (k.task p).policy ≡ bit_or h.sched_other h.sched_yield
      → (k.task env.current).euid ≡ (k.task p).euid
      → ((prio ≡ pos 0) → sys_sched_setparam h env k pid (holds prio) ≡ (k, einval))
        × ((pos 1 ≤ℤ prio)
            → (prio ≤ℤ pos 99)
            → sys_sched_setparam h env k pid (holds prio)
              ≡ (store_policy h env k p (pos (k.task p).policy) prio, ret (pos 0)))
  unfolding sys_sched_setparam set_found check_policy
  setparam_yielding pid prio p given found yielding own =
      let (a, b, c) = is-yielding p yielding in
      (λ zero. ground (arith, found, a, b, c, own), λ lo hi. ground (arith, found, a, b, c, own))
