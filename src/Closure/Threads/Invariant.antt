-- ===== src/Closure/Threads/Invariant.antt =====
-- What one thread of wtc_thr.c knows of the matrix, and the turns of the others.
use os_design.Prelude.{
  ℕ, suc, ◌+◌, ◌<◌, ◌≤◌, ◌≡◌, refl, List, true, ltb, if◌then◌else◌, arith, ℕ_discrete, inl, inr,
  Bool-cases,
}
use os_design.Closure.Grid.{entry, IsGrid, get-entry}
use os_design.Closure.Walks.{Edges, via, Between, Between-column}
use os_design.Closure.Threads.{
  Pc, test, row, col, at_barrier, finished, relax, first_row, end_row, next_pc, next_matrix,
}
use os_design.Closure.Threads.Writes.{Follows, Follows-refl, relax-Follows, relax_hit}

-- The entries of row `i` left of column `y` have the value that round `k` gives them.
abbrev pub RowDone : Edges → ℕ → List ℕ → ℕ → ℕ → ℕ → Type 0
RowDone e n m k i y = (j : ℕ) → j < y → via e (suc k) i j ≡ true → entry n m i j ≡ true

abbrev pub RowsDone : Edges → ℕ → List ℕ → ℕ → ℕ → ℕ → Type 0
RowsDone e n m k lo hi = (i : ℕ) → lo ≤ i → i < hi → RowDone e n m k i n

-- What the place of a thread, whose rows are `lo ..< hi`, says of the round.
pub data Progress (e : Edges) (n k lo hi : ℕ) (m : List ℕ) : Pc → Type 0 where
  tests : Progress e n k lo hi m test
  rows : {i : ℕ} → k < n → lo ≤ i → i ≤ hi → RowsDone e n m k lo i → Progress e n k lo hi m (row i)
  cols :
      {i ik j : ℕ}
      → k < n
      → lo ≤ i
      → i < hi
      → j ≤ n
      → ik ≡ (if via e k i k then 1 else 0)
      → RowsDone e n m k lo i
      → RowDone e n m k i j
      → Progress e n k lo hi m (col i ik j)
  waits : k < n → RowsDone e n m k lo hi → Progress e n k lo hi m at_barrier
  ends : k ≡ n → Progress e n k lo hi m finished

module _ (e : Edges) (n k : ℕ) (m m' : List ℕ) where
  pub RowDone-keeps :
      (i y : ℕ) → Follows e n k m m' → i < n → y ≤ n → RowDone e n m k i y → RowDone e n m' k i y
  RowDone-keeps i y f hi hy d j hj v = f.keeps i j hi (omega arith) (d j hj v)

  RowsDone-keeps :
      (lo hi : ℕ) → Follows e n k m m' → hi ≤ n → RowsDone e n m k lo hi → RowsDone e n m' k lo hi
  RowsDone-keeps lo hi f h d i hl hu = RowDone-keeps i n f (omega arith) (omega arith) (d i hl hu)

  -- The write of one thread takes no progress from another.
  pub Progress-keeps :
      (lo hi : ℕ) {p : Pc}
      → Follows e n k m m'
      → hi ≤ n
      → Progress e n k lo hi m p
      → Progress e n k lo hi m' p
  Progress-keeps lo hi f h tests = tests
  Progress-keeps lo hi f h (rows {i} a b c d) = rows a b c (RowsDone-keeps lo i f (omega arith) d)
  Progress-keeps lo hi f h (cols {i = i} {j = j} a b c d r s t) =
      cols a b c d r (RowsDone-keeps lo i f (omega arith) s) (RowDone-keeps i j f (omega arith) d t)
  Progress-keeps lo hi f h (waits a d) = waits a (RowsDone-keeps lo hi f h d)
  Progress-keeps lo hi f h (ends a) = ends a

module _ (e : Edges) (n k length t : ℕ) (m : List ℕ) (g : IsGrid n m)
    (b : Between e n k (entry n m)) (fits : end_row length t ≤ n) (bound : k ≤ n) where
  -- A turn of a thread is a write of round `k`, or none.
  pub next_matrix-Follows :
      {p : Pc}
      → Progress e n k (first_row length t) (end_row length t) m p
      → Follows e n k m (next_matrix n k p m)
  unfolding next_matrix
  next_matrix-Follows tests = Follows-refl e n k m g b
  next_matrix-Follows (rows _ _ _ _) = Follows-refl e n k m g b
  next_matrix-Follows (cols {i = i} {ik = ik} {j = j} hk _ hi _ read _ _) =
      elim (Bool-cases (ltb j n)) [
        | inl more ↦ rw more (relax-Follows e n k i ik j m g b hk (omega arith) (ground arith) read)
        | inr done ↦ rw done (Follows-refl e n k m g b)
      ]
  next_matrix-Follows (waits _ _) = Follows-refl e n k m g b
  next_matrix-Follows (ends _) = Follows-refl e n k m g b

  pub RowDone-relax :
      (i ik j : ℕ)
      → k < n
      → i < n
      → j < n
      → ik ≡ (if via e k i k then 1 else 0)
      → RowDone e n m k i j
      → RowDone e n (relax n k i ik j m) k i (j + 1)
  RowDone-relax i ik j hk hi hj read d x hx v = elim (ℕ_discrete x j) [
    | yes same ↦ rw same (relax_hit e n k i ik j m g b hk hi hj read (rw (← same) v))
    | no other ↦
        (relax-Follows e n k i ik j m g b hk hi hj read).keeps i x hi (omega arith)
          (d x (omega arith) v)
  ]

  RowsDone-suc :
      (lo i : ℕ) → RowsDone e n m k lo i → RowDone e n m k i n → RowsDone e n m k lo (i + 1)
  RowsDone-suc lo i d r x l h = elim (ℕ_discrete x i) [
    | yes same ↦ λ y hy v. rw same (r y hy (rw (← same) v))
    | no other ↦ d x l (omega arith)
  ]

  -- A turn of a thread takes its own progress along.
  pub next_pc-Progress :
      {p : Pc}
      → Progress e n k (first_row length t) (end_row length t) m p
      → Progress e n k
          (first_row length t)
          (end_row length t)
          (next_matrix n k p m)
          (next_pc n length k t m p)
  unfolding next_pc next_matrix
  next_pc-Progress tests = elim (Bool-cases (ltb k n)) [
    | inl more ↦
        rw more (rows (ground arith) (omega arith) (omega arith) (λ i lo hi. absurd (omega arith)))
    | inr done ↦ rw done (ends (ground arith))
  ]
  next_pc-Progress (rows {i} hk lo hi d) = elim (Bool-cases (ltb i (end_row length t))) [
    | inl more ↦ rw more (
        cols hk lo (ground arith) (omega arith)
          (ground (arith, get-entry n m i k, Between-column e b hk i)) d
          (λ j hj. absurd (omega arith)))
    | inr done ↦ rw done (waits hk (λ x l h. d x l (ground arith)))
  ]
  next_pc-Progress (cols {i = i} {ik = ik} {j = j} hk lo hi hj read d r) =
      elim (Bool-cases (ltb j n)) [
        | inl more ↦
            let f = relax-Follows e n k i ik j m g b hk (omega arith) (ground arith) read in
            rw more (
              cols hk lo hi (ground arith) read
                (RowsDone-keeps e n k m _ (first_row length t) i f (omega arith) d)
                (RowDone-relax i ik j hk (omega arith) (ground arith) read r))
        | inr done ↦ rw done (
            rows hk (omega arith) (omega arith)
              (RowsDone-suc (first_row length t) i d (λ y hy v. r y (ground arith) v)))
      ]
  next_pc-Progress (waits a d) = waits a d
  next_pc-Progress (ends a) = ends a

  -- When the rounds are over no thread writes.
  pub next_matrix_over :
      {p : Pc}
      → Progress e n k (first_row length t) (end_row length t) m p
      → k ≡ n
      → next_matrix n k p m ≡ m
  unfolding next_matrix
  next_matrix_over tests over = refl
  next_matrix_over (rows _ _ _ _) over = refl
  next_matrix_over (cols hk _ _ _ _ _ _) over = absurd (omega arith)
  next_matrix_over (waits _ _) over = refl
  next_matrix_over (ends _) over = refl
