-- ===== src/Closure/Flip/Laws.antt =====
-- Every state that can be reached is in a turn of the flag, so the barrier keeps the rounds apart.
use os_design.Prelude.{ℕ, ◌+◌, ◌<◌, ◌≤◌, ◌≡◌, refl, sym, ltb, arith, inl, inr, Bool-cases}
use os_design.Prelude.Sums.{total-full, total_zero}
use os_design.Closure.Flip.{
  Pc, waiting, gone, ended, Shared, start, Step, arrives, looks, leaves, flips, checks, Reach, here,
  next,
}
use os_design.Closure.Flip.Turns.{
  InTurn, at_work, counted, behind, through, away, lost, missing, Turned, lost-le,
}
use os_design.Closure.Flip.Steps.{
  arrive-Turned, look-Turned, leave-Turned, flip-Turned, check-Turned,
}

start-Turned : (n threads : ℕ) → Turned n threads 0 (start n threads)
unfolding start
start-Turned n threads = elim (Bool-cases (ltb 0 n)) [
  | inl h ↦ record {
    cont = refl;
    other = refl;
    counter = sym (total_zero _ threads (λ u lt. rw h refl));
    left = omega (arith, total_zero (missing (start n threads).child) threads (λ u lt. rw h refl));
    flags = λ q lt. refl;
    places = λ q lt. rw h (at_work (ground arith));
    over = λ e. cc;
  }
  | inr h ↦ record {
    cont = refl;
    other = refl;
    counter = sym (total_zero _ threads (λ u lt. rw h refl));
    left = omega (arith, total_zero (missing (start n threads).child) threads (λ u lt. rw h refl));
    flags = λ q lt. refl;
    places = λ q lt. rw h (through (ground arith));
    over = λ e. cc;
  }
]

-- In which turn a state is.
pub Reach-Turned : {n threads : ℕ} {s : Shared} → Reach n threads s → (g : ℕ) × Turned n threads g s
Reach-Turned {n} {threads} here = (0, start-Turned n threads)
Reach-Turned {n} {threads} (next r st) = step_from (Reach-Turned r) st
  where
    step_from :
        {s u : Shared}
        → (g : ℕ) × Turned n threads g s
        → Step n threads s u
        → (g : ℕ) × Turned n threads g u
    step_from (g, t) (arrives s q lt e) = (g, arrive-Turned n threads g s t q lt e)
    step_from (g, t) (looks s q lt e) = (g, look-Turned n threads g s t q lt e)
    step_from (g, t) (leaves s q lt e) = (g, leave-Turned n threads g s t q lt e)
    step_from (g, t) (flips s e) = flip-Turned n threads g s t
    step_from (g, t) (checks s e) = (g, check-Turned n threads g s t e)

-- The rounds whose columns a child has finished.
abbrev pub rounds_done : Pc → ℕ → ℕ
rounds_done waiting k = k + 1
rounds_done p k = k

round-le : {n g k : ℕ} {p : Pc} → InTurn n g p k → k ≤ g
round-le (at_work lt) = omega arith
round-le (counted lt) = omega arith
round-le (behind lt e) = omega (arith, e)
round-le (through e) = omega arith
round-le (away e) = omega arith

rounds_done-ge : {n g k : ℕ} {p : Pc} → InTurn n g p k → g ≤ rounds_done p k
rounds_done-ge (at_work lt) = omega arith
rounds_done-ge (counted lt) = omega arith
rounds_done-ge (behind lt e) = omega (arith, e)
rounds_done-ge (through e) = omega arith
rounds_done-ge (away e) = omega arith

when_lost : {n g k : ℕ} {p : Pc} → InTurn n g p k → lost p ≡ 1 → (p ≡ gone) × (k ≡ n)
when_lost (at_work lt) e = absurd (omega (arith, e))
when_lost (counted lt) e = absurd (omega (arith, e))
when_lost (behind lt h) e = absurd (omega (arith, e))
when_lost (through h) e = absurd (omega (arith, e))
when_lost (away h) e = (refl, h)

-- In every state that the children and the parent can reach, no child is in a round before all the
-- children have finished their columns of the rounds before it; and when the parent has left its
-- loop, every child has done all the rounds and has counted itself off.
pub flip_lem :
    (n threads : ℕ) (s : Shared)
    → Reach n threads s
    → ((p q : ℕ)
        → p < threads
        → q < threads
        → (s.child p).k ≤ rounds_done (s.child q).pc (s.child q).k)
      × (s.parent ≡ ended → (q : ℕ) → q < threads → ((s.child q).pc ≡ gone) × ((s.child q).k ≡ n))
flip_lem n threads s r =
    let turned = Reach-Turned r in
    let g = turned.0 in
    let t = turned.1 in
    (
      λ p q hp hq. omega (arith, round-le (t.places p hp), rounds_done-ge (t.places q hq)),
      λ e q lt. when_lost (t.places q lt) (
          total-full (missing s.child) threads (λ u. lost-le (s.child u).pc)
            (omega (arith, t.left, t.over e)) q lt),
    )
