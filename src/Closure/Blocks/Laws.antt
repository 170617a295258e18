-- ===== src/Closure/Blocks/Laws.antt =====
-- The rounds of wtc_proc.c together.
use os_design.Prelude.{
  ℕ, zero, suc, ◌+◌, ◌*◌, ◌/◌, ◌<◌, ◌≤◌, ◌≡◌, ◌↔◌, List, true, length, arith, dec_lt,
}
use mathlib.Core.Path.{subst}
use os_design.Closure.Walks.{Edges, Walk}
use os_design.Closure.Processes.Column.{entry}
use os_design.Closure.Processes.Found.{Found, Found-Between, Found-first, Found-Walk_iff}
use os_design.Closure.Blocks.{
  Worker, at_column, at_barrier, Blocks, first_column, AfterRounds, begin, round,
}
use os_design.Closure.Blocks.Round.{Sound, Progress, InRound-Sound}

-- The child whose block has a column.
owner :
    (threads q y : ℕ) → y < threads * q → (t : ℕ) × (t < threads) × (t * q ≤ y) × (y < (t + 1) * q)
owner zero q y lt = absurd (omega arith)
owner (suc ts) q y lt = elim (dec_lt y (ts * q)) [
  | yes below ↦ let (t, a, b, c) = owner ts q y below in (t, omega (arith, a), b, c)
  | no last ↦ (ts, omega arith, omega (arith, last), grind (arith, lt))
]

module _ (e : Edges) (n threads : ℕ) (even : threads * (n / threads) ≡ n) where
  begins :
      (k : ℕ) (m : List ℕ)
      → Found e n k m
      → Sound e n k threads
          (record { matrix = m; worker = λ t. at_column (first_column (n / threads) t) })
  unfolding Progress
  begins k m a = record {
    size = a.size;
    between = Found-Between a;
    progress = λ t lt. (omega arith, grind arith, λ y l h. absurd (omega (arith, l, h)));
  }

  ends :
      (k : ℕ) (s : Blocks)
      → Sound e n k threads s
      → ((t : ℕ) → t < threads → s.worker t ≡ at_barrier)
      → Found e n (suc k) s.matrix
  unfolding Progress
  ends k s i all = record {
    size = i.size;
    value = λ x y hx hy.
        let (t, lt, lo, hi) = owner threads (n / threads) y (omega (arith, hy, even)) in
        let done : Progress e n k threads s.matrix t at_barrier =
          subst (λ (w : Worker). Progress e n k threads s.matrix t w) (all t lt)
            (i.progress t lt) in
        done y lo hi x hx;
  }

  pub AfterRounds-Found :
      {m : List ℕ}
      → Found e n 0 m
      → {k : ℕ} {m' : List ℕ} → k ≤ n
      → AfterRounds n threads m k m'
      → Found e n k m'
  AfterRounds-Found a le begin = a
  AfterRounds-Found a le (round {k = k} {s = s} rs r all) =
      let before = AfterRounds-Found a (omega arith) rs in
      ends k s (InRound-Sound e n k threads (omega arith) (begins k _ before) r) all

-- A matrix of `n` lines, where `n` is a multiple of the number of child processes. However their
-- turns interleave, after `n` rounds the matrix of the same size has an entry for exactly the nodes
-- that a path joins.
pub AfterRounds-iff-Walk :
    (n threads : ℕ) (m m' : List ℕ)
    → threads * (n / threads) ≡ n
    → length m ≡ n * n
    → AfterRounds n threads m n m'
    → (length m' ≡ n * n)
      × ((x y : ℕ) → x < n → y < n → (entry n m' x y ≡ true) ↔ Walk n (entry n m) x y)
AfterRounds-iff-Walk n threads m m' even size rs =
    let a = AfterRounds-Found (entry n m) n threads even (Found-first n m size) (omega arith) rs in
    (a.size, Found-Walk_iff a)
