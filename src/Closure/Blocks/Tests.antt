-- ===== src/Closure/Blocks/Tests.antt =====
-- Two rounds of two children on two nodes that point at each other, the second child first.
use mathlib.Core.Path.{subst}
use os_design.Prelude.{
  ℕ, suc, ◌<◌, ◌≡◌, ◌↔◌, ◌*◌, refl, List, [], ◌∷◌, true, length, arith, ℕ_discrete,
}
use os_design.Closure.Walks.{Walk}
use os_design.Closure.Processes.{column}
use os_design.Closure.Processes.Column.{entry}
use os_design.Closure.Blocks.{
  Turn, at_barrier, Blocks, next_worker, next_matrix, turn, InRound, here, next, AfterRounds, begin,
  round,
}
use os_design.Closure.Blocks.Work.{work, AfterRounds-end}
use os_design.Closure.Blocks.Laws.{AfterRounds-iff-Walk}

abbrev two_cycle : List ℕ
two_cycle = 0 ∷ 1 ∷ 1 ∷ 0 ∷ []

-- Both columns of round `k`.
abbrev swept : ℕ → List ℕ → List ℕ
swept k m = column 2 k 0 (column 2 k 1 m 2) 2

in_turns :
    (k : ℕ) (m : List ℕ)
    → (s : Blocks) × InRound 2 k 2 m s
      × ((t : ℕ) → t < 2 → s.worker t ≡ at_barrier)
      × (s.matrix ≡ swept k m)
unfolding next_worker next_matrix ℕ_discrete
in_turns k m = (
  _,
  next
      (next (next (next here (turn 1 1 (omega arith) refl)) (turn 0 0 (omega arith) refl))
        (turn 1 2 (omega arith) refl))
      (turn 0 1 (omega arith) refl),
  λ t h. ground arith,
  refl,
)

swept_round :
    {k : ℕ} {m : List ℕ}
    → AfterRounds 2 2 two_cycle k m
    → AfterRounds 2 2 two_cycle (suc k) (swept k m)
swept_round {k} {m} rs =
    let (s, r, all, e) = in_turns k m in
    subst (λ (x : List ℕ). AfterRounds 2 2 two_cycle (suc k) x) e (round rs r all)

AfterRounds-iff-Walk_example :
    (length (swept 1 (swept 0 two_cycle)) ≡ 2 * 2)
    × ((x y : ℕ)
        → x < 2
        → y < 2
        → (entry 2 (swept 1 (swept 0 two_cycle)) x y ≡ true) ↔ Walk 2 (entry 2 two_cycle) x y)
AfterRounds-iff-Walk_example =
    AfterRounds-iff-Walk 2 2 two_cycle (swept 1 (swept 0 two_cycle)) refl refl
      (swept_round (swept_round begin))

AfterRounds-end_example :
    ((k : ℕ) (s u : Blocks) → Turn 2 k 2 s u → work 2 2 u < work 2 2 s)
    × ((m : List ℕ) (k : ℕ) → (m' : List ℕ) × AfterRounds 2 2 m k m')
AfterRounds-end_example = AfterRounds-end 2 2
