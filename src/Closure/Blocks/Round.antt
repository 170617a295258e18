-- ===== src/Closure/Blocks/Round.antt =====
-- The invariant of a round of wtc_proc.c, on the columns of a block.
use os_design.Prelude.{
  ℕ, suc, ◌+◌, ◌*◌, ◌/◌, ◌<◌, ◌≤◌, ◌≡◌, sym, ◌∙◌, List, true, false, ltb, length, arith, dec_lt,
  ℕ_discrete,
}
use mathlib.Core.Path.{subst}
use native.Mathlib.Nat.{mul-div-le}
use os_design.Closure.Walks.{Edges, via, Between}
use os_design.Closure.Processes.{column}
use os_design.Closure.Processes.Column.{entry, column_lem}
use os_design.Closure.Blocks.{
  Worker, at_column, at_barrier, Blocks, assign, first_column, end_column, next_worker, next_matrix,
  Turn, turn, InRound, here, next,
}

module _ (e : Edges) (n k threads : ℕ) where
  abbrev pub per : ℕ
  per = n / threads

  abbrev pub DoneFrom : List ℕ → ℕ → ℕ → Type 0
  DoneFrom m lo hi = (y : ℕ) → lo ≤ y → y < hi → (x : ℕ) → x < n → entry n m x y ≡ via e (suc k) x y

  -- What a child at a place has done.
  unfoldable pub Progress : List ℕ → ℕ → Worker → Type 0
  Progress m t (at_column y) =
      (first_column per t ≤ y) × (y ≤ end_column per t) × DoneFrom m (first_column per t) y
  Progress m t at_barrier = DoneFrom m (first_column per t) (end_column per t)

  pub record Sound (s : Blocks) : Type 0 where
    pub size : length s.matrix ≡ n * n
    pub between : Between e n k (entry n s.matrix)
    pub progress : (t : ℕ) → t < threads → Progress s.matrix t (s.worker t)

  block_end : (t : ℕ) → t < threads → end_column per t ≤ n
  block_end t lt =
      let blocks : (t + 1) * per ≤ threads * per = grind arith in
      omega (arith, blocks, mul-div-le n threads)

  -- What is done stays done while a column is computed.
  kept :
      (m : List ℕ) (y : ℕ)
      → length m ≡ n * n
      → Between e n k (entry n m)
      → k < n
      → y < n
      → (lo hi : ℕ) → hi ≤ n
      → DoneFrom m lo hi
      → DoneFrom (column n k y m n) lo hi
  kept m y size b below hy lo hi fits d z l h x hx =
      let (_, _, value) = column_lem e n k y m size b below hy in
      ground (arith, value x z hx (omega (arith, h, fits)), d z l h x hx)

  more :
      (m : List ℕ) (y : ℕ)
      → length m ≡ n * n
      → Between e n k (entry n m)
      → k < n
      → y < n
      → (lo : ℕ) → DoneFrom m lo y
      → DoneFrom (column n k y m n) lo (y + 1)
  more m y size b below hy lo d z l h x hx =
      let (_, _, value) = column_lem e n k y m size b below hy in
      elim (ℕ_discrete y z) [
        | yes same ↦ ground (arith, value x z hx (omega (arith, h, hy)), same)
        | no other ↦
            ground
              (arith, value x z hx (omega (arith, h, hy)), d z l (omega (arith, h, other)) x hx)
      ]

  Progress-kept :
      (m : List ℕ) (y : ℕ)
      → length m ≡ n * n
      → Between e n k (entry n m)
      → k < n
      → y < n
      → (t : ℕ) → t < threads
      → (w : Worker) → Progress m t w
      → Progress (column n k y m n) t w
  unfolding Progress
  Progress-kept m y size b below hy t lt (at_column z) (lo, hi, d) = (
    lo,
    hi,
    kept m y size b below hy (first_column per t) z (omega (arith, hi, block_end t lt)) d,
  )
  Progress-kept m y size b below hy t lt at_barrier d =
      kept m y size b below hy (first_column per t) (end_column per t) (block_end t lt) d

  assigned :
      (m : List ℕ) (worker : ℕ → Worker) (t : ℕ) (w : Worker)
      → Progress m t w
      → ((u : ℕ) → u < threads → Progress m u (worker u))
      → (u : ℕ) → u < threads
      → Progress m u (assign worker t w u)
  assigned m worker t w own others u lt = elim (ℕ_discrete t u) [
    | yes same ↦
        let e : assign worker t w u ≡ w = ground (arith, same) in
        subst (λ (x : Worker). Progress m u x) (sym e) (subst (λ (x : ℕ). Progress m x w) same own)
    | no other ↦
        let e : assign worker t w u ≡ worker u = ground (arith, other) in
        subst (λ (x : Worker). Progress m u x) (sym e) (others u lt)
  ]

  module _ (s : Blocks) (i : Sound s) (t y : ℕ) (lt : t < threads) (at : s.worker t ≡ at_column y)
      (below : k < n) where
    own : Progress s.matrix t (at_column y)
    own = subst (λ (x : Worker). Progress s.matrix t x) at (i.progress t lt)

    -- A column is computed.
    turn_column :
        y < end_column per t
        → Sound (record {
          matrix = column n k y s.matrix n;
          worker = assign s.worker t (at_column (y + 1));
        })
    unfolding Progress
    turn_column inside =
        let hy : y < n = omega (arith, inside, block_end t lt) in
        let (size, between, value) = column_lem e n k y s.matrix i.size i.between below hy in
        record {
          size = size ∙ i.size;
          between = between;
          progress =
              assigned (column n k y s.matrix n) s.worker t (at_column (y + 1))
                (
                  omega (arith, own.0),
                  omega (arith, inside),
                  more s.matrix y i.size i.between below hy (first_column per t) own.2,
                )
                (λ u w.
                  Progress-kept s.matrix y i.size i.between below hy u w (s.worker u)
                    (i.progress u w));
        }

    -- The block is at its end.
    turn_end :
        end_column per t ≤ y
        → Sound (record { matrix = s.matrix; worker = assign s.worker t at_barrier })
    unfolding Progress
    turn_end over = record {
      size = i.size;
      between = i.between;
      progress =
          assigned s.matrix s.worker t at_barrier (λ z l h. own.2 z l (omega (arith, h, over)))
            i.progress;
    }

  Turn-Sound : {s u : Blocks} → k < n → Sound s → Turn n k threads s u → Sound u
  unfolding next_worker next_matrix
  Turn-Sound {s} below i (turn t y lt at) = elim (dec_lt y (end_column per t)) [
    | yes inside ↦
        let b : ltb y (end_column per t) ≡ true = ground (arith, inside) in
        rw b (turn_column s i t y lt at below inside)
    | no over ↦
        let b : ltb y (end_column per t) ≡ false = ground (arith, over) in
        rw b (turn_end s i t y lt at below (omega (arith, over)))
  ]

  pub InRound-Sound :
      {m : List ℕ} {s : Blocks}
      → k < n
      → Sound (record { matrix = m; worker = λ t. at_column (first_column per t) })
      → InRound n k threads m s
      → Sound s
  InRound-Sound below i here = i
  InRound-Sound below i (next r st) = Turn-Sound below (InRound-Sound below i r) st
