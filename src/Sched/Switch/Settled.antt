-- ===== src/Sched/Switch/Settled.antt =====
-- When the memories of all the tasks are as they should be.
use mathlib.Core.Path.{subst}
use os_design.Prelude.{ℕ, ◌≡◌, ◌≢◌, sym, ◌∙◌, Option, some, arith, ℕ_discrete}
use os_design.Sched.Task.{Task}
use os_design.Sched.Idle.{put}
use os_design.Sched.Switch.{Switch}

-- A task that does not run holds its own memory and no other. The one that runs has a memory, its own
-- if it is not a kernel thread.
pub record IsSettled (s : Switch) : Type 0 where
  pub waiting : (q : ℕ) → s.current ≢ q → (s.task q).active_mm ≡ (s.task q).mm
  pub memory : ℕ
  pub active : (s.task s.current).active_mm ≡ some memory
  pub own : (m : ℕ) → (s.task s.current).mm ≡ some m → m ≡ memory

-- A task in a table in which another task, or the same, has got another `active_mm`.
pub put-mm :
    (g : ℕ → Task) (p q : ℕ) (a : Option ℕ)
    → (put g p (record (g p) { active_mm = a }) q).mm ≡ (g q).mm
put-mm g p q a = elim (ℕ_discrete p q) [
  | yes same ↦ rw same (ground arith)
  | no other ↦ ground arith
]

pub put_other :
    (g : ℕ → Task) (p q : ℕ) (a : Option ℕ)
    → p ≢ q
    → (put g p (record (g p) { active_mm = a }) q).active_mm ≡ (g q).active_mm
put_other g p q a other = ground arith

pub put_same :
    (g : ℕ → Task) (p : ℕ) (a : Option ℕ)
    → (put g p (record (g p) { active_mm = a }) p).active_mm ≡ a
put_same g p a = ground arith

module _ (s : Switch) (i : IsSettled s) where
  -- What is to be shown of the state after a switch to another task.
  pub settles :
      (u : Switch) (next m : ℕ)
      → u.current ≡ next
      → s.current ≢ next
      → ((q : ℕ) → (u.task q).mm ≡ (s.task q).mm)
      → ((q : ℕ) → s.current ≢ q → next ≢ q → (u.task q).active_mm ≡ (s.task q).active_mm)
      → (u.task s.current).active_mm ≡ (s.task s.current).mm
      → (u.task next).active_mm ≡ some m
      → ((x : ℕ) → (s.task next).mm ≡ some x → x ≡ m)
      → IsSettled u
  settles u next m at ne mms others given active own = record {
    waiting = λ q other. elim (ℕ_discrete s.current q) [
      | yes same ↦
          subst (λ (x : ℕ). (u.task x).active_mm ≡ (u.task x).mm) same (given ∙ sym (mms s.current))
      | no away ↦ others q away (λ e. other (at ∙ e)) ∙ i.waiting q away ∙ sym (mms q)
    ];
    memory = m;
    active = subst (λ (x : ℕ). (u.task x).active_mm ≡ some m) (sym at) active;
    own = λ x e. own x (subst (λ (y : ℕ). (s.task y).mm ≡ some x) at (sym (mms u.current) ∙ e));
  }
