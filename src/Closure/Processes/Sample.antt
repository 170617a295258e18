-- ===== src/Closure/Processes/Sample.antt =====
-- Two rounds of one child on two nodes that point at each other.
use os_design.Prelude.{ℕ, suc, ◌<◌, ◌≡◌, refl, List, [], ◌∷◌, arith, ℕ_discrete}
use mathlib.Core.Path.{subst}
use os_design.Prelude.Int.{ℤ, pos, negsuc}
use os_design.Closure.Processes.{
  set_queue, fill_queue, at_queue, popped, queue_pop, column, at_barrier, Shared, take, pop,
  compute, Reach, here, next, Rounds, begin, round,
}

abbrev pub queue : List ℤ
queue = pos 0 ∷ pos 0 ∷ pos 0 ∷ []

abbrev pub cycle : List ℕ
cycle = 0 ∷ 1 ∷ 1 ∷ 0 ∷ []

-- Both columns of round `k`.
abbrev pub both : ℕ → List ℕ → List ℕ
both k m = column 2 k 1 (column 2 k 0 m 2) 2

alone :
    (k : ℕ) (m : List ℕ)
    → (s : Shared) × Reach 2 k 1 (set_queue queue 2) m s
      × ((t : ℕ) → t < 1 → s.child t ≡ at_barrier)
      × (s.matrix ≡ both k m)
unfolding queue_pop set_queue fill_queue at_queue popped take ℕ_discrete
alone k m = (
  _,
  next
      (next
        (next
          (next (next here (pop 0 (omega arith) refl (pos 0) 1 refl))
            (compute 0 0 (omega arith) refl))
          (pop 0 (omega arith) refl (pos 1) 2 refl))
        (compute 0 1 (omega arith) refl))
      (pop 0 (omega arith) refl (negsuc 0) 2 refl),
  λ t h. ground arith,
  refl,
)

one_round :
    {k : ℕ} {m : List ℕ}
    → Rounds 2 1 (set_queue queue 2) cycle k m
    → Rounds 2 1 (set_queue queue 2) cycle (suc k) (both k m)
one_round {k} {m} rs =
    let (s, r, all, e) = alone k m in
    subst (λ (x : List ℕ). Rounds 2 1 (set_queue queue 2) cycle (suc k) x) e (round rs r all)

pub cycle-Rounds : Rounds 2 1 (set_queue queue 2) cycle 2 (both 1 (both 0 cycle))
cycle-Rounds = one_round (one_round begin)
