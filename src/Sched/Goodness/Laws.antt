-- ===== src/Sched/Goodness/Laws.antt =====
-- The bands of `goodness`, and what preempts what.
use os_design.Prelude.{
  ℕ, ◌+◌, ◌==◌, ◌&&◌, ◌≡◌, ◌≢◌, Bool, true, false, Option, arith, dec_lt, Bool-cases, inl, inr, ◌⊎◌,
  ℕ_discrete, refl,
}
use os_design.Prelude.Int.{pos, negsuc, ◌+ℤ◌, ◌-ℤ◌, ◌≤ℤ◌, ◌<ℤ◌, int_laws, pos_part, neg_part}
use os_design.Sched.Task.{Headers, Task}
use os_design.Sched.Goodness.{yields, goodness, near, lazy, preemption_goodness}

-- `nice` is kept from -20 to 19 by `sys_nice`, and the ticks left are not negative.
pub record IsSane (p : Task) : Type 0 where
  pub nice_low : negsuc 19 ≤ℤ p.nice
  pub nice_high : p.nice ≤ℤ pos 19
  pub ticks : pos 0 ≤ℤ p.counter

module _ (h : Headers) (smp : Bool) (p : Task) (cpu : ℕ) (mm : Option ℕ) where
  -- A task that yields has -1.
  pub goodness_yield : yields h smp p ≡ true → goodness h smp p cpu mm ≡ negsuc 0
  unfolding goodness
  goodness_yield y = rw y

  near_bounds : (pos 0 ≤ℤ near h smp p cpu) × (near h smp p cpu ≤ℤ pos h.proc_change_penalty)
  unfolding near
  near_bounds = ground arith

  near_same : (smp && (p.processor == cpu)) ≡ true → near h smp p cpu ≡ pos h.proc_change_penalty
  unfolding near
  near_same e = rw e refl

  near_other : (smp && (p.processor == cpu)) ≡ false → near h smp p cpu ≡ pos 0
  unfolding near
  near_other e = rw e refl

  lazy_bounds : (pos 0 ≤ℤ lazy h smp p mm) × (lazy h smp p mm ≤ℤ pos 1)
  unfolding lazy
  lazy_bounds = ground arith

  goodness_spent :
      yields h smp p ≡ false
      → p.policy ≡ h.sched_other
      → p.counter ≡ pos 0
      → goodness h smp p cpu mm ≡ pos 0
  unfolding goodness
  goodness_spent y o e = ground arith

  goodness_ticks :
      yields h smp p ≡ false
      → p.policy ≡ h.sched_other
      → pos 0 <ℤ p.counter
      → goodness h smp p cpu mm
        ≡ p.counter +ℤ near h smp p cpu +ℤ lazy h smp p mm +ℤ (pos 20 -ℤ p.nice)
  unfolding goodness
  goodness_ticks y o e = ground arith

  goodness_realtime :
      yields h smp p ≡ false
      → p.policy ≢ h.sched_other
      → goodness h smp p cpu mm ≡ pos (1000 + p.rt_priority)
  unfolding goodness
  goodness_realtime y o = ground arith

  goodness_other_bounds :
      IsSane p
      → yields h smp p ≡ false
      → p.policy ≡ h.sched_other
      → (pos 0 ≤ℤ goodness h smp p cpu mm)
        × (goodness h smp p cpu mm ≤ℤ p.counter +ℤ pos (h.proc_change_penalty + 41))
  goodness_other_bounds s y o = elim (dec_lt (neg_part p.counter) (pos_part p.counter)) [
    | yes left ↦
        rw (goodness_ticks y o (omega arith))
          (omega (int_laws, near_bounds, lazy_bounds, s.nice_low, s.nice_high))
    | no spent ↦ rw (goodness_spent y o (ground (arith, s.ticks))) (omega (int_laws, s.ticks))
  ]

  -- Every branch of `goodness`, for a task with a `nice` from -20 to 19 and no negative ticks: a
  -- task that yields gets -1; an ordinary one that used up its ticks gets 0, and with ticks left it
  -- gets more than the ticks and at most the ticks, the penalty for changing the processor and 41
  -- together, with CONFIG_SMP on its own processor more than the ticks and the penalty, and else at
  -- most the ticks and 41; a realtime task gets 1000 and its priority.
  pub goodness_bands :
      IsSane p
      → (yields h smp p ≡ true → goodness h smp p cpu mm ≡ negsuc 0)
        × (yields h smp p ≡ false
            → p.policy ≡ h.sched_other
            → p.counter ≡ pos 0
            → goodness h smp p cpu mm ≡ pos 0)
        × (yields h smp p ≡ false
            → p.policy ≡ h.sched_other
            → pos 0 <ℤ p.counter
            → (p.counter <ℤ goodness h smp p cpu mm)
              × (goodness h smp p cpu mm ≤ℤ p.counter +ℤ pos (h.proc_change_penalty + 41))
              × ((smp && (p.processor == cpu)) ≡ true
                  → p.counter +ℤ pos h.proc_change_penalty <ℤ goodness h smp p cpu mm)
              × ((smp && (p.processor == cpu)) ≡ false
                  → goodness h smp p cpu mm ≤ℤ p.counter +ℤ pos 41))
        × (yields h smp p ≡ false
            → p.policy ≢ h.sched_other
            → goodness h smp p cpu mm ≡ pos (1000 + p.rt_priority))
  goodness_bands s = (
    goodness_yield,
    goodness_spent,
    (λ y o e. (
      rw (goodness_ticks y o e)
          (omega (int_laws, near_bounds, lazy_bounds, s.nice_low, s.nice_high)),
      (goodness_other_bounds s y o).1,
      (λ same.
          rw (goodness_ticks y o e, near_same same)
            (omega (int_laws, lazy_bounds, s.nice_low, s.nice_high))),
      (λ other.
          rw (goodness_ticks y o e, near_other other)
            (omega (int_laws, lazy_bounds, s.nice_low, s.nice_high))),
    )),
    goodness_realtime,
  )

-- No goodness is below that of a task that yields.
goodness_least :
    (h : Headers) (smp : Bool) (p : Task) (cpu : ℕ) (mm : Option ℕ)
    → IsSane p
    → negsuc 0 ≤ℤ goodness h smp p cpu mm
goodness_least h smp p cpu mm s = elim (Bool-cases (yields h smp p)) [
  | inl y ↦ rw (goodness_yield h smp p cpu mm y) (omega arith)
  | inr y ↦ elim (ℕ_discrete p.policy h.sched_other) [
    | yes o ↦ omega (arith, (goodness_other_bounds h smp p cpu mm s y o).0)
    | no o ↦ rw (goodness_realtime h smp p cpu mm y o) (omega arith)
  ]
]

module _ (h : Headers) (smp : Bool) (prev p : Task) (cpu : ℕ) where
  preemption_parts :
      preemption_goodness h smp prev p cpu
      ≡ goodness h smp p cpu prev.active_mm -ℤ goodness h smp prev cpu prev.active_mm
  unfolding preemption_goodness
  preemption_parts = refl

  -- A realtime task that does not yield preempts every ordinary task whose ticks, with the penalty
  -- and 41, stay below 1000, and every task that yields.
  pub realtime_preempts :
      IsSane prev
      → yields h smp p ≡ false
      → p.policy ≢ h.sched_other
      → (yields h smp prev ≡ true) ⊎ (prev.policy ≡ h.sched_other)
      → prev.counter +ℤ pos (h.proc_change_penalty + 41) <ℤ pos 1000
      → pos 0 <ℤ preemption_goodness h smp prev p cpu
  realtime_preempts s y rt low few = elim (Bool-cases (yields h smp prev)) [
    | inl y' ↦
        rw
          (
            preemption_parts,
            goodness_realtime h smp p cpu prev.active_mm y rt,
            goodness_yield h smp prev cpu prev.active_mm y',
          )
          (omega int_laws)
    | inr y' ↦
        let o : prev.policy ≡ h.sched_other = ground arith in
        rw (preemption_parts, goodness_realtime h smp p cpu prev.active_mm y rt)
          (omega (int_laws, (goodness_other_bounds h smp prev cpu prev.active_mm s y' o).1))
  ]

  -- A task that yields preempts nothing.
  pub yield_preempts_none :
      IsSane prev → yields h smp p ≡ true → preemption_goodness h smp prev p cpu ≤ℤ pos 0
  yield_preempts_none s y =
      rw (preemption_parts, goodness_yield h smp p cpu prev.active_mm y)
        (omega (int_laws, goodness_least h smp prev cpu prev.active_mm s))
