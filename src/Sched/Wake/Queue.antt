-- ===== src/Sched/Wake/Queue.antt =====
-- The run queue: no task stands in it twice, and `nr_running` counts it.
use os_design.Prelude.{
  ℕ, ◌+◌, ◌≡◌, refl, List, [], ◌∷◌, true, false, ◌&&◌, ◌||◌, not, ◌==◌, arith, inl, inr, Bool-cases,
  length, length-append,
}
use os_design.Sched.Idle.{Kernel}
use os_design.Sched.Wake.{
  task_on_runqueue, list_del, list_add_tail, add_to_runqueue, move_last_runqueue,
}

abbrev pub NoRepeat : List ℕ → Type 0
NoRepeat [] = Unit {0}
NoRepeat (q ∷ qs) = (task_on_runqueue qs q ≡ false) × NoRepeat qs

pub record IsQueue (k : Kernel) : Type 0 where
  pub once : NoRepeat k.queue
  pub counted : k.nr_running ≡ length k.queue

pub on-add_tail :
    (qs : List ℕ) (p x : ℕ)
    → task_on_runqueue (list_add_tail qs p) x ≡ (task_on_runqueue qs x || (p == x))
unfolding task_on_runqueue
on-add_tail [] p x = ground arith
on-add_tail (q ∷ qs) p x = ground (arith, on-add_tail qs p x)

NoRepeat-add_tail :
    (qs : List ℕ) (p : ℕ)
    → NoRepeat qs
    → task_on_runqueue qs p ≡ false
    → NoRepeat (list_add_tail qs p)
unfolding task_on_runqueue
NoRepeat-add_tail [] p h off = (refl, tt)
NoRepeat-add_tail (q ∷ qs) p h off =
    (ground (arith, on-add_tail qs p q), NoRepeat-add_tail qs p h.1 (ground arith))

on-del :
    (qs : List ℕ) (p x : ℕ)
    → NoRepeat qs
    → task_on_runqueue (list_del qs p) x ≡ (task_on_runqueue qs x && not (p == x))
unfolding task_on_runqueue list_del
on-del [] p x h = refl
on-del (q ∷ qs) p x h = ground (arith, on-del qs p x h.1, h.0)

on_same :
    (qs : List ℕ) (p x : ℕ)
    → task_on_runqueue qs p ≡ true
    → (p == x) ≡ true
    → task_on_runqueue qs x ≡ true
on_same qs p x on e = let same : p ≡ x = ground arith in rw (← same) on

pub add_to_runqueue-IsQueue :
    (k : Kernel) (p : ℕ)
    → task_on_runqueue k.queue p ≡ false
    → IsQueue k
    → IsQueue (add_to_runqueue k p)
unfolding add_to_runqueue
add_to_runqueue-IsQueue k p off w = record {
  once = NoRepeat-add_tail k.queue p w.once off;
  counted = omega (arith, w.counted, length-append k.queue (p ∷ []));
}

NoRepeat-del : (qs : List ℕ) (p : ℕ) → NoRepeat qs → NoRepeat (list_del qs p)
unfolding list_del
NoRepeat-del [] p h = tt
NoRepeat-del (q ∷ qs) p h = elim (Bool-cases (q == p)) [
  | inl same ↦ rw same h.1
  | inr other ↦ rw other (ground (arith, on-del qs p q h.1, h.0), NoRepeat-del qs p h.1)
]

length-del :
    (qs : List ℕ) (p : ℕ) → task_on_runqueue qs p ≡ true → length (list_del qs p) + 1 ≡ length qs
unfolding task_on_runqueue list_del
length-del [] p h = cc
length-del (q ∷ qs) p h = ground (arith, length-del qs p)

-- A task that yields goes to the end of the run queue: the queue keeps each task once and the
-- count right, and holds the same tasks. The task is on the queue before.
pub move_last_runqueue-IsQueue :
    (k : Kernel) (p : ℕ)
    → IsQueue k
    → task_on_runqueue k.queue p ≡ true
    → IsQueue (move_last_runqueue k p)
      × ((x : ℕ) → task_on_runqueue (move_last_runqueue k p).queue x ≡ task_on_runqueue k.queue x)
unfolding move_last_runqueue
move_last_runqueue-IsQueue k p w on = (
  record {
    once =
        NoRepeat-add_tail (list_del k.queue p) p (NoRepeat-del k.queue p w.once)
          (ground (arith, on-del k.queue p p w.once));
    counted =
        omega
          (arith, w.counted, length-append (list_del k.queue p) (p ∷ []), length-del k.queue p on);
  },
  λ x. ground (
    arith,
    on-add_tail (list_del k.queue p) p x,
    on-del k.queue p x w.once,
    on_same k.queue p x on,
  ),
)
