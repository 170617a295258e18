-- ===== src/Closure/Walks.antt =====
-- What the programs of Project_1 compute: which nodes are joined by a path. `via` is the
-- recurrence of Warshall's algorithm, and `Walk` the paths themselves.
use os_design.Prelude.{
  ℕ, zero, suc, ◌<◌, ◌≤◌, ◌≡◌, refl, Bool, true, ◌&&◌, ◌||◌, ◌↔◌, inl, inr, Bool-cases, arith,
  dec_lt,
}

abbrev pub Edges : Type 0
Edges = ℕ → ℕ → Bool

-- A path of one edge or more, whose inner nodes are below `n`.
pub data Walk (n : ℕ) (e : Edges) : ℕ → ℕ → Type 0 where
  edge : {i j : ℕ} → e i j ≡ true → Walk n e i j
  more : {i m j : ℕ} → e i m ≡ true → m < n → Walk n e m j → Walk n e i j

-- Joined by a path whose inner nodes are below `k`.
pub via : Edges → ℕ → ℕ → ℕ → Bool
via e zero i j = e i j
via e (suc k) i j = via e k i j || (via e k i k && via e k k j)

module _ (e : Edges) where
  pub via-suc : (k i j : ℕ) → via e (suc k) i j ≡ (via e k i j || (via e k i k && via e k k j))
  unfolding via
  via-suc k i j = refl

  -- In round `k` neither column `k` nor row `k` changes.
  pub via-column : (k i : ℕ) → via e (suc k) i k ≡ via e k i k
  via-column k i = ground (arith, via-suc k i k)

  pub via-row : (k j : ℕ) → via e (suc k) k j ≡ via e k k j
  via-row k j = ground (arith, via-suc k k j)

  via-edge : (k i j : ℕ) → e i j ≡ true → via e k i j ≡ true
  unfolding via
  via-edge zero i j h = h
  via-edge (suc k) i j h = ground (arith, via-edge k i j h)

  via_trans : (k m i j : ℕ) → m < k → via e k i m ≡ true → via e k m j ≡ true → via e k i j ≡ true
  via_trans zero m i j lt p q = absurd (omega arith)
  via_trans (suc k) m i j lt p q = elim (dec_lt m k) [
    | yes below ↦ ground (
      arith,
      via-suc k i m,
      via-suc k m j,
      via-suc k i j,
      via_trans k m i j below,
      via_trans k m i k below,
      via_trans k m k j below,
    )
    | no last ↦
        let same : m ≡ k = omega arith in
        ground (arith, same, via-suc k i j, via-column k i, via-row k j)
  ]

  Walk-append : {n i m j : ℕ} → Walk n e i m → m < n → Walk n e m j → Walk n e i j
  Walk-append (edge h) lt w = more h lt w
  Walk-append (more h l v) lt w = more h l (Walk-append v lt w)

  via-Walk : (n k i j : ℕ) → k ≤ n → via e k i j ≡ true → Walk n e i j
  unfolding via
  via-Walk n zero i j le h = edge h
  via-Walk n (suc k) i j le h = elim (Bool-cases (via e k i j)) [
    | inl old ↦ via-Walk n k i j (omega arith) old
    | inr new ↦
        Walk-append (via-Walk n k i k (omega arith) (ground arith)) le
          (via-Walk n k k j (omega arith) (ground arith))
  ]

  Walk-via : {n i j : ℕ} → Walk n e i j → via e n i j ≡ true
  Walk-via {n} {i} {j} (edge h) = via-edge n i j h
  Walk-via {n} {i} {j} (more {m = m} h lt w) = via_trans n m i j lt (via-edge n i m h) (Walk-via w)

  -- The recurrence decides whether there is a path.
  pub via-Walk_iff : (n i j : ℕ) → (via e n i j ≡ true) ↔ Walk n e i j
  via-Walk_iff n i j = (via-Walk n n i j (omega arith), Walk-via)

  -- A matrix in the middle of round `k`: what the round before has found is there, and nothing
  -- that this round may not find.
  pub record Between (n k : ℕ) (m : Edges) : Type 0 where
    pub lower : (i j : ℕ) → i < n → j < n → via e k i j ≡ true → m i j ≡ true
    pub upper : (i j : ℕ) → i < n → j < n → m i j ≡ true → via e (suc k) i j ≡ true

  module _ {n k : ℕ} {m : Edges} (b : Between n k m) (below : k < n) where
    pub Between-column : (i : ℕ) → i < n → m i k ≡ via e k i k
    Between-column i hi = ground (arith, b.lower i k hi below, b.upper i k hi below, via-column k i)

    pub Between-row : (j : ℕ) → j < n → m k j ≡ via e k k j
    Between-row j hj = ground (arith, b.lower k j below hj, b.upper k j below hj, via-row k j)

    -- One update of the algorithm, at any moment of the round, gives the round's final value.
    pub Between-cell : (i j : ℕ) → i < n → j < n → (m i j || (m i k && m k j)) ≡ via e (suc k) i j
    Between-cell i j hi hj = ground (
      arith,
      via-suc k i j,
      b.lower i j hi hj,
      b.upper i j hi hj,
      Between-column i hi,
      Between-row j hj,
    )

pub via-zero : (e : Edges) (i j : ℕ) → via e 0 i j ≡ e i j
unfolding via
via-zero e i j = refl

-- Graphs with the same edges below `n` are the same to the recurrence.
pub via-same :
    (e e' : Edges) (n : ℕ)
    → ((x y : ℕ) → x < n → y < n → e x y ≡ e' x y)
    → (k i j : ℕ) → k ≤ n
    → i < n
    → j < n
    → via e k i j ≡ via e' k i j
unfolding via
via-same e e' n same zero i j hk hi hj = same i j hi hj
via-same e e' n same (suc k) i j hk hi hj =
    let old = via-same e e' n same k in
    rw (old i j (omega arith) hi hj, old i k (omega arith) hi hk, old k j (omega arith) hk hj) refl
