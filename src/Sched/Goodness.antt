-- ===== src/Sched/Goodness.antt =====
-- Project_2/stuff/sched.c: `goodness` and `preemption_goodness`.
pub mod Laws
mod Tests
use os_design.Prelude.{
  ℕ, ◌+◌, Bool, ◌&&◌, ◌||◌, not, Option, none, some, ◌==◌, if◌then◌else◌, bit_and,
}
use os_design.Prelude.Int.{ℤ, pos, negsuc, ◌+ℤ◌, ◌-ℤ◌, eq_ℤ}
use os_design.Sched.Task.{Headers, Task}

-- `p->mm == this_mm || !p->mm`.
abbrev pub shares_mm : Option ℕ → Option ℕ → Bool
shares_mm none this_mm = Bool.true
shares_mm (some a) none = Bool.false
shares_mm (some a) (some b) = a == b

-- `smp` is CONFIG_SMP.
module _ (h : Headers) (smp : Bool) where
  abbrev pub yields : Task → Bool
  yields p = not (bit_and p.policy h.sched_yield == 0)

  -- The advantages of the same processor and of the current memory.
  unfoldable pub near : Task → ℕ → ℤ
  near p this_cpu = if smp && (p.processor == this_cpu) then pos h.proc_change_penalty else pos 0

  unfoldable pub lazy : Task → Option ℕ → ℤ
  lazy p this_mm = if shares_mm p.mm this_mm then pos 1 else pos 0

  unfoldable pub goodness : Task → ℕ → Option ℕ → ℤ
  goodness p this_cpu this_mm =
      if yields p
      then negsuc 0
      else if p.policy == h.sched_other
      then (if eq_ℤ p.counter (pos 0)
          then pos 0
          else p.counter +ℤ near p this_cpu +ℤ lazy p this_mm +ℤ (pos 20 -ℤ p.nice))
      else pos (1000 + p.rt_priority)

  unfoldable pub preemption_goodness : Task → Task → ℕ → ℤ
  preemption_goodness prev p cpu = goodness p cpu prev.active_mm -ℤ goodness prev cpu prev.active_mm
