-- ===== src/Closure/Processes/Column.antt =====
-- What the queue hands out, and what one column's update computes.
use os_design.Prelude.{
  ℕ, zero, suc, ◌+◌, ◌*◌, ◌<◌, ◌≤◌, ◌≡◌, refl, ◌∙◌, List, [], ◌∷◌, Bool, ◌&&◌, ◌||◌, ltb, ◌==◌,
  if◌then◌else◌, set, length, get_or-set, length-set, some, arith, Bool-cases, inl, inr,
}
use os_design.Prelude.Int.{ℤ, pos, negsuc}
use os_design.Closure.Walks.{Edges, via, via-suc, Between, Between-cell}
use os_design.Closure.Grid.{index_injective, index-lt}
use os_design.Closure.Processes.{
  fill_queue, set_queue, at_queue, popped, queue_pop, holds, relax, column,
}

-- The entry of row `x` and column `z`.
abbrev pub entry : ℕ → List ℕ → Edges
entry n m x z = holds m (z + x * n)

place : (n j y x z : ℕ) → y < n → z < n → (y + j * n == z + x * n) ≡ ((j == x) && (y == z))
place n j y x z hy hz =
    ground (arith, λ (e : j * n + y ≡ x * n + z). index_injective n j y x z hy hz e)

holds-set :
    (m : List ℕ) (i q : ℕ) (c : Bool)
    → i < length m
    → holds (set m i (if c then 1 else 0)) q ≡ (if i == q then c else holds m q)
holds-set m i q c lt = ground (arith, get_or-set m i q (if c then 1 else 0) 0)

-- What holds when `j` rows of column `y` are done.
pub record Partly (e : Edges) (n k y j : ℕ) (m m' : List ℕ) : Type 0 where
  pub size : length m' ≡ length m
  pub value :
      (x z : ℕ)
      → x < n
      → z < n
      → entry n m' x z ≡ (if (y == z) && ltb x j then via e (suc k) x z else entry n m x z)

module _ (e : Edges) (n k y : ℕ) (m : List ℕ) (room : length m ≡ n * n)
    (b : Between e n k (entry n m)) (below : k < n) (hy : y < n) where
  -- In the middle of a column it is still the middle of the round.
  Partly-Between : (j : ℕ) (m' : List ℕ) → Partly e n k y j m m' → Between e n k (entry n m')
  Partly-Between j m' p = record {
    lower = λ x z hx hz h. ground (arith, p.value x z hx hz, b.lower x z hx hz, via-suc e k x z);
    upper = λ x z hx hz h. ground (arith, p.value x z hx hz, b.upper x z hx hz);
  }

  relax-entry :
      (j : ℕ) (m' : List ℕ)
      → j < n
      → Partly e n k y j m m'
      → (x z : ℕ) → x < n
      → z < n
      → entry n (relax n k y j m') x z
        ≡ (if (j == x) && (y == z) then via e (suc k) j y else entry n m' x z)
  unfolding relax
  relax-entry j m' hj p x z hx hz =
      let c : Bool = entry n m' j y || (entry n m' k y && entry n m' j k) in
      let inside : y + j * n < length m' = omega (arith, index-lt n j y hj hy, p.size, room) in
      let value : c ≡ via e (suc k) j y =
        swapped (entry n m' j y) (entry n m' k y) (entry n m' j k)
        ∙ Between-cell e (Partly-Between j m' p) below j y hj hy in
      ground (arith, holds-set m' (y + j * n) (z + x * n) c inside, place n j y x z hy hz, value)
    where
      swapped : (a b c : Bool) → (a || (b && c)) ≡ (a || (c && b))
      swapped a b c = ground arith

  relax-Partly :
      (j : ℕ) (m' : List ℕ)
      → j < n
      → Partly e n k y j m m'
      → Partly e n k y (suc j) m (relax n k y j m')
  unfolding relax
  relax-Partly j m' hj p = record {
    size = length-set m' (y + j * n) _ ∙ p.size;
    value = λ x z hx hz. ground (arith, relax-entry j m' hj p x z hx hz, p.value x z hx hz);
  }

  column-Partly : (j : ℕ) → j ≤ n → Partly e n k y j m (column n k y m j)
  unfolding column
  column-Partly zero le = record { size = refl; value = λ x z hx hz. ground arith }
  column-Partly (suc j) le =
      relax-Partly j (column n k y m j) (omega arith) (column-Partly j (omega arith))

  -- The update of a whole column: it has the values of the next round, the others are kept.
  pub column_lem :
      (length (column n k y m n) ≡ length m)
      × Between e n k (entry n (column n k y m n))
      × ((x z : ℕ)
          → x < n
          → z < n
          → entry n (column n k y m n) x z ≡ (if y == z then via e (suc k) x z else entry n m x z))
  column_lem =
      let p = column-Partly n (omega arith) in
      (
        p.size,
        Partly-Between n (column n k y m n) p,
        λ x z hx hz. ground (arith, p.value x z hx hz),
      )

-- What the queue holds after `setQueue`: the numbers of the lines in order, and -1 behind them.
at_queue-set :
    (xs : List ℤ) (i j : ℕ) (v : ℤ)
    → i < length xs
    → at_queue (set xs i v) j ≡ (if i == j then some v else at_queue xs j)
unfolding at_queue
at_queue-set [] i j v lt = absurd (omega arith)
at_queue-set (x ∷ xs) zero zero v lt = ground arith
at_queue-set (x ∷ xs) zero (suc j) v lt = ground arith
at_queue-set (x ∷ xs) (suc i) zero v lt = ground arith
at_queue-set (x ∷ xs) (suc i) (suc j) v lt = ground (arith, at_queue-set xs i j v (omega arith))

at-fill_queue :
    (queue : List ℤ) (l left j : ℕ)
    → l + left < length queue
    → at_queue (fill_queue queue l left) j ≡ (
        if ltb j l
        then at_queue queue j
        else if ltb j (l + left)
        then some (pos j)
        else if j == l + left
        then some (negsuc 0)
        else at_queue queue j)
unfolding fill_queue
at-fill_queue queue l zero j lt = ground (arith, at_queue-set queue l j (negsuc 0))
at-fill_queue queue l (suc left) j lt = ground (
  arith,
  at-fill_queue (set queue l (pos l)) (suc l) left j (omega (arith, length-set queue l (pos l))),
  at_queue-set queue l j (pos l),
)

-- A pop gives the next line, or -1 for ever when all are taken.
pub queue_pop_lem :
    (queue : List ℤ) (n q : ℕ)
    → n < length queue
    → q ≤ n
    → queue_pop (set_queue queue n) q
      ≡ (if ltb q n then some (pos q, q + 1) else some (negsuc 0, q))
unfolding queue_pop set_queue popped
queue_pop_lem queue n q lt le = elim (Bool-cases (ltb q n)) [
  | inl more ↦
      let e : at_queue (fill_queue queue 0 n) q ≡ some (pos q) =
        ground (arith, at-fill_queue queue 0 n q (omega arith)) in
      rw more (rw e (ground arith))
  | inr over ↦
      let e : at_queue (fill_queue queue 0 n) q ≡ some (negsuc 0) =
        ground (arith, at-fill_queue queue 0 n q (omega arith)) in
      rw over (rw e refl)
]
