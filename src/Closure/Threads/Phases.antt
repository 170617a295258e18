-- ===== src/Closure/Threads/Phases.antt =====
-- The rounds of wtc_thr.c: what holds between the barriers, in every state that can be reached,
-- when the rows of the threads cover the matrix.
use os_design.Prelude.{
  ℕ, zero, suc, ◌*◌, ◌/◌, ◌<◌, ◌≤◌, ◌≡◌, refl, List, ltb, arith, dec_lt, ℕ_discrete, inl, inr,
  Bool-cases, ◌≢◌, sym,
}
use mathlib.Core.Path.{subst}
use native.Mathlib.Numerals.{add-one}
use os_design.Closure.Grid.{entry, IsGrid}
use os_design.Closure.Walks.{Edges, via, Between, via-suc, via-zero}
use os_design.Closure.Threads.{
  Pc, test, at_barrier, at_kbarrier, finished, MainPc, testing, waiting, counting, kwaiting,
  joining, joined, Machine, update, first_row, end_row, next_pc, next_matrix, turn, main_turn, Step,
  thread, main, barrier, kbarrier, join, start, Reach, here, next,
}
use os_design.Closure.Threads.Writes.{Follows}
use os_design.Closure.Threads.Invariant.{
  RowsDone, Progress, tests, waits, Progress-keeps, next_matrix-Follows, next_pc-Progress,
  next_matrix_over,
}

abbrev pub Exact : Edges → ℕ → ℕ → List ℕ → Type 0
Exact e n k m = (i j : ℕ) → i < n → j < n → entry n m i j ≡ via e k i j

pub Exact-Between : (e : Edges) (n k : ℕ) (m : List ℕ) → Exact e n k m → Between e n k (entry n m)
Exact-Between e n k m x = record {
  lower = λ i j hi hj v. ground (arith, x i j hi hj);
  upper = λ i j hi hj v. ground (arith, x i j hi hj, via-suc e k i j);
}

Progress-done :
    {e : Edges} {n k lo hi : ℕ} {m : List ℕ}
    → Progress e n k lo hi m at_barrier
    → RowsDone e n m k lo hi
Progress-done (waits _ d) = d

update_self : (pc : ℕ → Pc) (t : ℕ) (p : Pc) → update pc t p t ≡ p
update_self pc t p = ground arith

update_other : (pc : ℕ → Pc) (t u : ℕ) (p : Pc) → t ≢ u → update pc t p u ≡ pc u
update_other pc t u p h = ground arith

module _ (e : Edges) (n threads : ℕ) where
  -- A round is under way, or about to begin.
  pub record Working (s : Machine) : Type 0 where
    pub grid : IsGrid n s.matrix
    pub bound : s.k ≤ n
    pub between : Between e n s.k (entry n s.matrix)
    pub exact : s.k ≡ n → Exact e n n s.matrix
    pub progress :
        (t : ℕ)
        → t < threads
        → Progress e n s.k (first_row (n / threads) t) (end_row (n / threads) t) s.matrix (s.pc t)

  -- Every thread waits at the second barrier, and the matrix is that of round `k`.
  pub record Waiting (k : ℕ) (s : Machine) : Type 0 where
    pub grid : IsGrid n s.matrix
    pub exact : Exact e n k s.matrix
    pub held : (t : ℕ) → t < threads → s.pc t ≡ at_kbarrier

  abbrev pub Phase : MainPc → Machine → Type 0
  Phase testing s = Working s × Unit {0}
  Phase waiting s = Working s × (s.k < n)
  Phase counting s = Waiting (suc s.k) s × (s.k < n)
  Phase kwaiting s = Waiting s.k s × (s.k ≤ n)
  Phase joining s = Working s × (s.k ≡ n)
  Phase joined s = Working s × (s.k ≡ n) × ((t : ℕ) → t < threads → s.pc t ≡ finished)

  row-fits : (t : ℕ) → t < threads → end_row (n / threads) t ≤ n
  row-fits t lt = grind arith

  module _ (s : Machine) (t : ℕ) (lt : t < threads) (w : Working s) where
    abbrev written : List ℕ
    written = next_matrix n s.k (s.pc t) s.matrix

    abbrev own : Pc
    own = next_pc n (n / threads) s.k t s.matrix (s.pc t)

    turn-Follows : Follows e n s.k s.matrix written
    turn-Follows =
        next_matrix-Follows e n s.k (n / threads) t s.matrix w.grid w.between (row-fits t lt)
          w.bound (w.progress t lt)

    turn-Progress :
        (u : ℕ)
        → u < threads
        → Progress e n s.k
            (first_row (n / threads) u)
            (end_row (n / threads) u)
            written
            (update s.pc t own u)
    turn-Progress u hu = elim (ℕ_discrete t u) [
      | yes same ↦ rw (← same) (
          rw (update_self s.pc t own) (
            next_pc-Progress e n s.k (n / threads) t s.matrix w.grid w.between (row-fits t lt)
              w.bound (w.progress t lt)))
      | no other ↦ rw (update_other s.pc t u own other) (
          Progress-keeps e n s.k s.matrix written (first_row (n / threads) u)
            (end_row (n / threads) u) turn-Follows (row-fits u hu) (w.progress u hu))
    ]

    turn-Working : Working (turn n (n / threads) t s)
    unfolding turn
    turn-Working = record {
      grid = turn-Follows.grid;
      bound = w.bound;
      between = turn-Follows.between;
      exact = λ over.
          rw
            (next_matrix_over e n s.k (n / threads) t s.matrix w.grid w.between (row-fits t lt)
              w.bound (w.progress t lt) over)
            (w.exact over);
      progress = turn-Progress;
    }

  turn-Waiting :
      (s : Machine) (t k : ℕ) → t < threads → Waiting k s → Waiting k (turn n (n / threads) t s)
  unfolding turn next_pc next_matrix
  turn-Waiting s t k lt w = record {
    grid = rw (w.held t lt) w.grid;
    exact = rw (w.held t lt) w.exact;
    held = λ u hu. ground (arith, w.held t lt, w.held u hu);
  }

  turn-Phase :
      (s : Machine) (t : ℕ)
      → t < threads
      → (p : MainPc) → Phase p s
      → Phase p (turn n (n / threads) t s)
  unfolding turn
  turn-Phase s t lt testing h = (turn-Working s t lt h.0, tt)
  turn-Phase s t lt waiting h = (turn-Working s t lt h.0, h.1)
  turn-Phase s t lt counting h = (turn-Waiting s t (suc s.k) lt h.0, h.1)
  turn-Phase s t lt kwaiting h = (turn-Waiting s t s.k lt h.0, h.1)
  turn-Phase s t lt joining h = (turn-Working s t lt h.0, h.1)
  turn-Phase s t lt joined h =
      (turn-Working s t lt h.0, h.1, unfold next_pc in (λ u hu. ground (arith, h.2 t lt, h.2 u hu)))

  -- The counter and the matrix decide; where `wtc_thr` stands does not matter.
  Working-main : (s : Machine) (q : MainPc) → Working s → Working (record s { main = q })
  Working-main s q w = record {
    grid = w.grid;
    bound = w.bound;
    between = w.between;
    exact = w.exact;
    progress = w.progress;
  }

  -- The matrix of a finished round is a good start for the next one.
  Exact-Working :
      (s : Machine)
      → IsGrid n s.matrix
      → s.k ≤ n
      → Exact e n s.k s.matrix
      → Working (record s { main = testing; pc = λ _. test })
  Exact-Working s g bound x = record {
    grid = g;
    bound = bound;
    between = Exact-Between e n s.k s.matrix x;
    exact = λ over. subst (λ k. Exact e n k s.matrix) over x;
    progress = λ t lt. tests;
  }

  main_turn-Phase :
      (s : Machine) (p : MainPc)
      → s.main ≡ p
      → Phase p s
      → Phase (main_turn n p s).main (main_turn n p s)
  unfolding main_turn
  main_turn-Phase s testing e h = elim (Bool-cases (ltb s.k n)) [
    | inl more ↦ rw more (Working-main s waiting h.0, ground arith)
    | inr done ↦ rw done (Working-main s joining h.0, ground (arith, h.0.bound))
  ]
  main_turn-Phase s counting e h =
      (record { grid = h.0.grid; exact = rw add-one h.0.exact; held = h.0.held }, omega arith)
  main_turn-Phase s p e h = subst (λ q. Phase q s) (sym e) h

  -- The rows of the threads together are all the rows.
  owner :
      (length ts i : ℕ)
      → i < ts * length
      → (t : ℕ) × (t < ts) × (first_row length t ≤ i) × (i < end_row length t)
  owner length zero i h = absurd (omega arith)
  owner length (suc ts) i h = elim (dec_lt i (ts * length)) [
    | yes before ↦ let (t, a, b, c) = owner length ts i before in (t, omega arith, b, c)
    | no last ↦ (ts, omega arith, omega arith, omega arith)
  ]

  module _ (even : threads * (n / threads) ≡ n) where
    -- When every thread has come to the first barrier the round is complete.
    barrier-Exact :
        (s : Machine)
        → Working s
        → s.k < n
        → ((t : ℕ) → t < threads → s.pc t ≡ at_barrier)
        → Exact e n (suc s.k) s.matrix
    barrier-Exact s w more all i j hi hj =
        let (t, lt, lo, hu) = owner (n / threads) threads i (omega arith) in
        ground (
          arith,
          Progress-done (rw (all t lt) at (w.progress t lt)) i lo hu j hj,
          w.between.upper i j hi hj,
        )

    -- Every step keeps what holds of the round.
    Step-Phase : {s u : Machine} → Step n threads s u → Phase s.main s → Phase u.main u
    unfolding turn
    Step-Phase {s} (thread t lt) h = turn-Phase s t lt s.main h
    Step-Phase {s} main h = main_turn-Phase s s.main refl h
    Step-Phase {s} (barrier e all) h =
        let w : Phase waiting s = subst (λ q. Phase q s) e h in
        (record { grid = w.0.grid; exact = barrier-Exact s w.0 w.1 all; held = λ t lt. refl }, w.1)
    Step-Phase {s} (kbarrier e all) h =
        let w : Phase kwaiting s = subst (λ q. Phase q s) e h in
        (Exact-Working s w.0.grid w.1 w.0.exact, tt)
    Step-Phase {s} (join e all) h =
        let w : Phase joining s = subst (λ q. Phase q s) e h in
        (Working-main s joined w.0, w.1, all)

    pub Reach-Phase :
        {a : List ℕ} {s : Machine}
        → IsGrid n a
        → ((i j : ℕ) → entry n a i j ≡ e i j)
        → Reach n threads a s
        → Phase s.main s
    Reach-Phase {a} g same here =
        (Exact-Working (start a) g (omega arith) (λ i j hi hj. rw via-zero (same i j)), tt)
    Reach-Phase g same (next r st) = Step-Phase st (Reach-Phase g same r)
