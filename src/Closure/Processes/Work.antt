-- ===== src/Closure/Processes/Work.antt =====
-- How much work is left in a round of wtc_btproc.c.
use os_design.Prelude.{
  ℕ, zero, suc, ◌+◌, ◌-◌, ◌*◌, ◌<◌, ◌≤◌, ◌≡◌, ◌⊎◌, refl, sym, ap, ◌∙◌, List, length, Option, some,
  arith, dec_lt, inl, inr, ℕ_discrete,
}
use os_design.Prelude.Sums.{total, total_change}
use os_design.Prelude.Int.{ℤ, pos, negsuc}
use os_design.Closure.Processes.{
  set_queue, queue_pop, Child, popping, computing, at_barrier, Shared, move, take, Step, pop,
  compute, Reach, here, next, Rounds, begin, round,
}
use os_design.Closure.Processes.Column.{queue_pop_lem}

rank : Child → ℕ
rank popping = 1
rank (computing y) = 2
rank at_barrier = 0

-- Two for each line that is not taken, and what the children are about to do.
pub work : ℕ → ℕ → Shared → ℕ
unfolding rank
work n threads s = 2 * (n - s.q_num) + total (λ t. rank (s.child t)) threads

module _ (n k threads : ℕ) (queue : List ℤ) (room : n < length queue) where
  moved :
      (child : ℕ → Child) (t : ℕ) (c : Child)
      → t < threads
      → total (λ u. rank (move child t c u)) threads + rank (child t)
        ≡ total (λ u. rank (child u)) threads + rank c
  moved child t c lt =
      let e : rank (move child t c t) ≡ rank c = ground arith in
      total_change (λ u. rank (child u)) (λ u. rank (move child t c u)) t threads lt
        (λ u other. ground (arith, other))
      ∙ ap (λ (x : ℕ). total (λ u. rank (child u)) threads + x) e

  same_pair :
      {y y' : ℤ} {q q' : ℕ}
      → ◌≡◌ {A = Option (ℤ × ℕ)} (some (y, q)) (some (y', q'))
      → (y' ≡ y) × (q' ≡ q)
  same_pair e = (cc, cc)

  line_left : (q : ℕ) → q < n → queue_pop (set_queue queue n) q ≡ some (pos q, q + 1)
  line_left q more = ground (arith, queue_pop_lem queue n q room (omega arith))

  no_line : (q : ℕ) → q ≡ n → queue_pop (set_queue queue n) q ≡ some (negsuc 0, q)
  no_line q over = ground (arith, queue_pop_lem queue n q room (omega arith))

  -- What a pop gives: the next line, or the end.
  given :
      (q : ℕ) (y : ℤ) (q' : ℕ)
      → q ≤ n
      → queue_pop (set_queue queue n) q ≡ some (y, q')
      → ((y ≡ pos q) × (q' ≡ q + 1) × (q < n)) ⊎ ((y ≡ negsuc 0) × (q' ≡ q))
  given q y q' le e = elim (dec_lt q n) [
    | yes more ↦ let (a, b) = same_pair (sym (line_left q more) ∙ e) in inl (a, b, more)
    | no over ↦ inr (same_pair (sym (no_line q (omega arith)) ∙ e))
  ]

  Step-less :
      {s u : Shared}
      → s.q_num ≤ n
      → Step n k threads (set_queue queue n) s u
      → (u.q_num ≤ n) × (work n threads u < work n threads s)
  unfolding work take rank
  Step-less {s} le (compute t y lt at) = (le, omega (arith, moved s.child t popping lt, ap rank at))
  Step-less {s} le (pop t lt at y q e) = elim (given s.q_num y q le e) [
    | inl (ey, eq, more) ↦
        let r : rank (take y) ≡ 2 = ap (λ (x : ℤ). rank (take x)) ey in
        (
          omega (arith, eq, more),
          omega (arith, eq, more, moved s.child t (take y) lt, ap rank at, r),
        )
    | inr (ey, eq) ↦
        let r : rank (take y) ≡ 0 = ap (λ (x : ℤ). rank (take x)) ey in
        (omega (arith, eq), omega (arith, eq, moved s.child t (take y) lt, ap rank at, r))
  ]

  Busy : Child → Type 0
  Busy c = (c ≡ popping) ⊎ ((y : ℕ) × (c ≡ computing y))

  find-Busy :
      (child : ℕ → Child) (ts : ℕ)
      → ((t : ℕ) → t < ts → child t ≡ at_barrier) ⊎ ((t : ℕ) × (t < ts) × Busy (child t))
  unfolding Busy
  find-Busy child zero = inl (λ t lt. absurd (omega arith))
  find-Busy child (suc ts) = elim (find-Busy child ts) [
    | inr (t, lt, b) ↦ inr (t, omega (arith, lt), b)
    | inl all ↦ elim (kinds (child ts)) [
      | inr b ↦ inr (ts, omega arith, b)
      | inl last ↦ inl (λ t lt. elim (ℕ_discrete t ts) [
        | yes same ↦ rw same last
        | no other ↦ all t (omega arith)
      ])
    ]
  ]
    where
      kinds : (c : Child) → (c ≡ at_barrier) ⊎ ((c ≡ popping) ⊎ ((y : ℕ) × (c ≡ computing y)))
      kinds popping = inr (inl refl)
      kinds (computing y) = inr (inr (y, refl))
      kinds at_barrier = inl refl

  -- A child that is not at the barrier can take a step.
  steps :
      (s : Shared) (t : ℕ)
      → t < threads
      → s.q_num ≤ n
      → Busy (s.child t)
      → (u : Shared) × Step n k threads (set_queue queue n) s u
  unfolding Busy
  steps s t lt le (inr (y, at)) = (_, compute t y lt at)
  steps s t lt le (inl at) = elim (dec_lt s.q_num n) [
    | yes more ↦ (_, pop t lt at (pos s.q_num) (s.q_num + 1) (line_left s.q_num more))
    | no over ↦ (_, pop t lt at (negsuc 0) s.q_num (no_line s.q_num (omega arith)))
  ]

  ends :
      (fuel : ℕ) (m : List ℕ) (s : Shared)
      → Reach n k threads (set_queue queue n) m s
      → s.q_num ≤ n
      → work n threads s ≤ fuel
      → (u : Shared) × Reach n k threads (set_queue queue n) m u
        × ((t : ℕ) → t < threads → u.child t ≡ at_barrier)
  ends zero m s r le few = elim (find-Busy s.child threads) [
    | inl all ↦ (s, r, all)
    | inr (t, lt, b) ↦
        let (u, st) = steps s t lt le b in
        let (_, less) = Step-less le st in absurd (omega (arith, few, less))
  ]
  ends (suc fuel) m s r le few = elim (find-Busy s.child threads) [
    | inl all ↦ (s, r, all)
    | inr (t, lt, b) ↦
        let (u, st) = steps s t lt le b in
        let (le', less) = Step-less le st in
        ends fuel m u (next r st) le' (omega (arith, few, less))
  ]

-- The rounds end: with a queue for `n` lines, a step of a child leaves less work and does not count
-- beyond the lines, so no round goes on for ever; and from every matrix any number of rounds can be
-- brought to its end.
pub Rounds-end :
    (n threads : ℕ) (queue : List ℤ)
    → n < length queue
    → ((k : ℕ) (s u : Shared)
        → s.q_num ≤ n
        → Step n k threads (set_queue queue n) s u
        → (u.q_num ≤ n) × (work n threads u < work n threads s))
      × ((m : List ℕ) (k : ℕ) → (m' : List ℕ) × Rounds n threads (set_queue queue n) m k m')
Rounds-end n threads queue room = (λ k s u le st. Step-less n k threads queue room le st, rounds)
  where
    rounds : (m : List ℕ) (k : ℕ) → (m' : List ℕ) × Rounds n threads (set_queue queue n) m k m'
    rounds m zero = (m, begin)
    rounds m (suc k) =
        let (m', rs) = rounds m k in
        let first : Shared = record { matrix = m'; q_num = 0; child = λ t. popping } in
        let (u, r, all) =
          ends n k threads queue room (work n threads first) m' first here (omega arith)
            (omega arith) in
        (u.matrix, round rs r all)
