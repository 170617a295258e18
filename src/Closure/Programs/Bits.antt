-- ===== src/Closure/Programs/Bits.antt =====
-- The processes write 0 and 1 only.
use os_design.Prelude.{
  ℕ, zero, suc, ◌+◌, ◌*◌, List, Bool, ◌&&◌, ◌||◌, if◌then◌else◌, get_or-set, ltb, arith, inl, inr,
  Bool-cases,
}
use os_design.Prelude.Int.{ℤ}
use os_design.Closure.Output.Laws.{IsBits}
use os_design.Closure.Processes
use os_design.Closure.Processes.{holds, relax, column, pop, compute}
use os_design.Closure.Blocks.{next_matrix, end_column, turn, InRound, AfterRounds}
use os_design.Closure.Blocks

module _ (n k y : ℕ) where
  relax-IsBits : (j : ℕ) (m : List ℕ) → IsBits m → IsBits (relax n k y j m)
  unfolding relax
  relax-IsBits j m b p =
      let c : Bool = holds m (y + j * n) || (holds m (y + k * n) && holds m (k + j * n)) in
      ground (arith, get_or-set {A = ℕ} m (y + j * n) p (if c then 1 else 0) 0, b p)

  column-IsBits : (m : List ℕ) (j : ℕ) → IsBits m → IsBits (column n k y m j)
  unfolding column
  column-IsBits m zero b = b
  column-IsBits m (suc j) b = relax-IsBits j (column n k y m j) (column-IsBits m j b)

next_matrix-IsBits : (n k per t y : ℕ) (m : List ℕ) → IsBits m → IsBits (next_matrix n k per t y m)
unfolding next_matrix
next_matrix-IsBits n k per t y m b = elim (Bool-cases (ltb y (end_column per t))) [
  | inl more ↦ rw more (column-IsBits n k y m n b)
  | inr done ↦ rw done b
]

module _ {n k threads : ℕ} where
  Reach-IsBits :
      {queue : List ℤ} {m : List ℕ} {s : Processes.Shared}
      → IsBits m
      → Processes.Reach n k threads queue m s
      → IsBits s.matrix
  Reach-IsBits b Processes.here = b
  Reach-IsBits b (Processes.next r (pop t lt at y q e)) = Reach-IsBits b r
  Reach-IsBits b (Processes.next {s = s} r (compute t y lt at)) =
      column-IsBits n k y s.matrix n (Reach-IsBits b r)

  InRound-IsBits :
      {m : List ℕ} {s : Blocks.Blocks} → IsBits m → InRound n k threads m s → IsBits s.matrix
  InRound-IsBits b Blocks.here = b
  InRound-IsBits b (Blocks.next {s = s} r (turn t y lt at)) =
      next_matrix-IsBits n k _ t y s.matrix (InRound-IsBits b r)

pub Rounds-IsBits :
    {n threads : ℕ} {queue : List ℤ} {m : List ℕ}
    → IsBits m
    → {k : ℕ} {m' : List ℕ} → Processes.Rounds n threads queue m k m'
    → IsBits m'
Rounds-IsBits b Processes.begin = b
Rounds-IsBits b (Processes.round rs r all) = Reach-IsBits (Rounds-IsBits b rs) r

pub AfterRounds-IsBits :
    {n threads : ℕ} {m : List ℕ}
    → IsBits m
    → {k : ℕ} {m' : List ℕ} → AfterRounds n threads m k m'
    → IsBits m'
AfterRounds-IsBits b Blocks.begin = b
AfterRounds-IsBits b (Blocks.round rs r all) = InRound-IsBits (AfterRounds-IsBits b rs) r
