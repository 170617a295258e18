-- ===== src/Closure/Processes/Laws.antt =====
-- The rounds of wtc_btproc.c together.
use os_design.Prelude.{ℕ, suc, ◌*◌, ◌<◌, ◌≤◌, ◌≡◌, ◌↔◌, List, true, length, arith, inl, inr}
use os_design.Prelude.Int.{ℤ}
use os_design.Closure.Walks.{Edges, Walk}
use os_design.Closure.Processes.{set_queue, popping, at_barrier, Shared, Rounds, begin, round}
use os_design.Closure.Processes.Column.{entry}
use os_design.Closure.Processes.Found.{Found, Found-Between, Found-first, Found-Walk_iff}
use os_design.Closure.Processes.Round.{Sound, SomeComputes, Reach-Sound}

module _ (e : Edges) (n threads : ℕ) (queue : List ℤ) (room : n < length queue)
    (some_child : 1 ≤ threads) where
  begins :
      (k : ℕ) (m : List ℕ)
      → Found e n k m
      → Sound e n k threads (record { matrix = m; q_num = 0; child = λ t. popping })
  begins k m a = record {
    size = a.size;
    between = Found-Between a;
    taken = omega arith;
    handed = λ y h. absurd (omega arith);
    valid = λ t y h. cc;
    exhausted = λ t h. cc;
  }

  ends :
      (k : ℕ) (s : Shared)
      → Sound e n k threads s
      → ((t : ℕ) → t < threads → s.child t ≡ at_barrier)
      → Found e n (suc k) s.matrix
  ends k s i all = record {
    size = i.size;
    value = λ x y hx hy. elim (i.handed y (omega (arith, i.exhausted 0 (all 0 (omega arith))))) [
      | inl d ↦ d x hx
      | inr c ↦ absurd (idle y c)
    ];
  }
    where
      idle : (y : ℕ) → SomeComputes e n k threads s.child y → ⊥
      idle y (t, lt, at) = let w = all t lt in cc

  pub Rounds-Found :
      {m : List ℕ}
      → Found e n 0 m
      → {k : ℕ} {m' : List ℕ} → k ≤ n
      → Rounds n threads (set_queue queue n) m k m'
      → Found e n k m'
  Rounds-Found a le begin = a
  Rounds-Found a le (round {k = k} {s = s} rs r all) =
      let before = Rounds-Found a (omega arith) rs in
      ends k s (Reach-Sound e n k threads queue room (omega arith) (begins k _ before) r) all

-- A matrix of `n` lines, a queue with room for `n` numbers and -1, and one child or more. However
-- the pops and the columns of the children interleave, after `n` rounds the matrix of the same size
-- has an entry for exactly the nodes that a path joins.
pub Rounds-iff-Walk :
    (n threads : ℕ) (queue : List ℤ) (m m' : List ℕ)
    → n < length queue
    → 1 ≤ threads
    → length m ≡ n * n
    → Rounds n threads (set_queue queue n) m n m'
    → (length m' ≡ n * n)
      × ((x y : ℕ) → x < n → y < n → (entry n m' x y ≡ true) ↔ Walk n (entry n m) x y)
Rounds-iff-Walk n threads queue m m' room child size rs =
    let a =
      Rounds-Found (entry n m) n threads queue room child (Found-first n m size) (omega arith) rs in
    (a.size, Found-Walk_iff a)
