-- ===== src/Closure/Blocks/Work.antt =====
-- How much work is left in a round of wtc_proc.c.
use os_design.Prelude.{
  ℕ, zero, suc, ◌-◌, ◌/◌, ◌<◌, ◌≤◌, ◌≡◌, ◌⊎◌, refl, ap, List, true, false, ltb, arith, dec_lt, inl,
  inr, ℕ_discrete,
}
use os_design.Prelude.Sums.{total, total_change}
use os_design.Closure.Blocks.{
  Worker, at_column, at_barrier, Blocks, assign, first_column, end_column, next_worker, Turn, turn,
  InRound, here, next, AfterRounds, begin, round,
}

module _ (n threads : ℕ) where
  -- The turns that a child has left.
  turns_left : ℕ → Worker → ℕ
  turns_left t (at_column y) = suc (end_column (n / threads) t - y)
  turns_left t at_barrier = 0

  pub work : Blocks → ℕ
  unfolding turns_left
  work s = total (λ t. turns_left t (s.worker t)) threads

  fewer : (t y : ℕ) → turns_left t (next_worker (n / threads) t y) < turns_left t (at_column y)
  unfolding turns_left next_worker
  fewer t y = elim (dec_lt y (end_column (n / threads) t)) [
    | yes inside ↦
        let b : ltb y (end_column (n / threads) t) ≡ true = ground (arith, inside) in
        rw b (omega (arith, inside))
    | no over ↦
        let b : ltb y (end_column (n / threads) t) ≡ false = ground (arith, over) in
        rw b (omega arith)
  ]

  Turn-less : {k : ℕ} {s u : Blocks} → Turn n k threads s u → work u < work s
  unfolding work
  Turn-less {k} {s} (turn t y lt at) =
      let w : Worker = next_worker (n / threads) t y in
      let e : turns_left t (assign s.worker t w t) ≡ turns_left t w = ground arith in
      let change =
        total_change (λ u. turns_left u (s.worker u)) (λ u. turns_left u (assign s.worker t w u)) t
          threads lt (λ u other. ground (arith, other)) in
      omega (arith, change, e, ap (turns_left t) at, fewer t y)

  find_column :
      (worker : ℕ → Worker) (ts : ℕ)
      → ((t : ℕ) → t < ts → worker t ≡ at_barrier)
        ⊎ ((t : ℕ) × (t < ts) × (y : ℕ) × (worker t ≡ at_column y))
  find_column worker zero = inl (λ t lt. absurd (omega arith))
  find_column worker (suc ts) = elim (find_column worker ts) [
    | inr (t, lt, y, at) ↦ inr (t, omega (arith, lt), y, at)
    | inl all ↦ elim (kinds (worker ts)) [
      | inr (y, at) ↦ inr (ts, omega arith, y, at)
      | inl last ↦ inl (λ t lt. elim (ℕ_discrete t ts) [
        | yes same ↦ rw same last
        | no other ↦ all t (omega arith)
      ])
    ]
  ]
    where
      kinds : (w : Worker) → (w ≡ at_barrier) ⊎ ((y : ℕ) × (w ≡ at_column y))
      kinds (at_column y) = inr (y, refl)
      kinds at_barrier = inl refl

  ends :
      (k fuel : ℕ) (m : List ℕ) (s : Blocks)
      → InRound n k threads m s
      → work s ≤ fuel
      → (u : Blocks) × InRound n k threads m u × ((t : ℕ) → t < threads → u.worker t ≡ at_barrier)
  ends k zero m s r few = elim (find_column s.worker threads) [
    | inl all ↦ (s, r, all)
    | inr (t, lt, y, at) ↦
        let less = Turn-less {k = k} {s = s} (turn t y lt at) in absurd (omega (arith, few, less))
  ]
  ends k (suc fuel) m s r few = elim (find_column s.worker threads) [
    | inl all ↦ (s, r, all)
    | inr (t, lt, y, at) ↦
        let less = Turn-less {k = k} {s = s} (turn t y lt at) in
        ends k fuel m _ (next r (turn t y lt at)) (omega (arith, few, less))
  ]

  -- The rounds end: a turn of a child leaves less work, so no round goes on for ever; and from every
  -- matrix any number of rounds can be brought to its end.
  pub AfterRounds-end :
      ((k : ℕ) (s u : Blocks) → Turn n k threads s u → work u < work s)
      × ((m : List ℕ) (k : ℕ) → (m' : List ℕ) × AfterRounds n threads m k m')
  AfterRounds-end = (λ k s u st. Turn-less st, rounds)
    where
      rounds : (m : List ℕ) (k : ℕ) → (m' : List ℕ) × AfterRounds n threads m k m'
      rounds m zero = (m, begin)
      rounds m (suc k) =
          let (m', rs) = rounds m k in
          let first : Blocks = record {
            matrix = m';
            worker = λ t. at_column (first_column (n / threads) t);
          } in
          let (u, r, all) = ends k (work first) m' first here (omega arith) in
          (u.matrix, round rs r all)
