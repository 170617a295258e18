-- ===== src/Closure/IntFile/Laws.antt =====
-- A file that lists the edges of a graph, read into a matrix of `int`.
use os_design.Prelude.{
  ℕ, zero, suc, ◌+◌, ◌*◌, ◌<◌, ◌≡◌, refl, ◌∙◌, List, [], ◌∷◌, Bool, true, false, ◌&&◌, ◌||◌, ◌==◌,
  length, set, some, get_or-set, length-set, get_or-replicate, length-replicate, replicate, arith,
}
use os_design.Prelude.Int.{ℤ, pos, ◌+ℤ◌, ◌-ℤ◌, ◌*ℤ◌}
use os_design.Closure.Grid.{index_injective, index-lt}
use os_design.Closure.ReadFile.{
  num, open_file, scan_int, scan, scan_pair, Outcome, done, exited, fault, running, Graph, finish,
}
use os_design.Closure.ReadFile.Laws.{edge_words, IsListed, listed, at_edges}
use os_design.Closure.Processes.Column.{entry}
use os_design.Closure.Output.Laws.{IsBits}
use os_design.Closure.IntFile.{open_matrix, int_index, is_inside, read_matrix, load_matrix}

int_index-eq : (n i j : ℕ) → int_index (pos n) (pos (suc i)) (pos (suc j)) ≡ pos (i * n + j)
unfolding int_index ◌+ℤ◌ ◌-ℤ◌ ◌*ℤ◌
int_index-eq n i j = ground arith

-- A matrix of `n` lines whose entries are 0 or 1.
pub record IsIntGrid (n : ℕ) (m : List ℕ) : Type 0 where
  pub size : length m ≡ n * n
  pub bits : IsBits m

abbrev mark : ℕ → ℕ → ℕ → List ℕ → List ℕ
mark n i j m = set m (i * n + j) 1

mark-IsIntGrid : (n i j : ℕ) (m : List ℕ) → IsIntGrid n m → IsIntGrid n (mark n i j m)
mark-IsIntGrid n i j m g = record {
  size = length-set m (i * n + j) 1 ∙ g.size;
  bits = λ p. ground (arith, get_or-set m (i * n + j) p 1 0, g.bits p);
}

mark-entry :
    (n i j : ℕ) (m : List ℕ) (x y : ℕ)
    → IsIntGrid n m
    → i < n
    → j < n
    → x < n
    → y < n
    → entry n (mark n i j m) x y ≡ ((i == x && (j == y)) || entry n m x y)
mark-entry n i j m x y g hi hj hx hy = ground (
  arith,
  get_or-set m (i * n + j) (y + x * n) 1 0,
  index-lt n i j hi hj,
  g.size,
  λ (e : i * n + j ≡ x * n + y). index_injective n i j x y hj hy e,
)

-- The matrix `m` with the edges added.
pub record Adds (n : ℕ) (es : List (ℕ × ℕ)) (m : List ℕ) (o : Outcome (List ℕ)) : Type 0 where
  pub out : List ℕ
  pub returns : o ≡ done out
  pub grid : IsIntGrid n out
  pub entries : (x y : ℕ) → x < n → y < n → entry n out x y ≡ (listed x y es || entry n m x y)

module _ (n : ℕ) (trailing : Bool) where
  inside :
      (i j : ℕ) (m : List ℕ)
      → IsIntGrid n m
      → i < n
      → j < n
      → is_inside (pos (i * n + j)) (length m) ≡ true
  unfolding is_inside
  inside i j m g hi hj = ground (arith, index-lt n i j hi hj, g.size)

  read_matrix-edge :
      (fuel i j : ℕ) (es : List (ℕ × ℕ)) (a b : ℤ) (m : List ℕ)
      → IsIntGrid n m
      → i < n
      → j < n
      → read_matrix (suc fuel) (pos n) m a b (at_edges ((i, j) ∷ es) trailing)
        ≡ read_matrix fuel (pos n) (mark n i j m) (pos (suc i)) (pos (suc j)) (at_edges es trailing)
  unfolding read_matrix scan_pair scan scan_int
  read_matrix-edge fuel i j [] a b m g hi hj =
      rw (int_index-eq n i j) (rw (inside i j m g hi hj) (ground arith))
  read_matrix-edge fuel i j ((x, y) ∷ es) a b m g hi hj =
      rw (int_index-eq n i j) (rw (inside i j m g hi hj) (ground arith))

entry_at :
    (n : ℕ) (m : List ℕ) (i j x y : ℕ)
    → entry n m i j ≡ true
    → (i == x && (j == y)) ≡ true
    → entry n m x y ≡ true
entry_at n m i j x y e h = let same : (i ≡ x) × (j ≡ y) = ground arith in rw (← same.0, ← same.1) e

-- After the last edge the loop turns once more if anything follows it.
read_matrix-last :
    (n : ℕ) (trailing : Bool) (fuel i j : ℕ) (m : List ℕ)
    → IsIntGrid n m
    → i < n
    → j < n
    → entry n m i j ≡ true
    → Adds n [] m
        (read_matrix (suc (suc fuel)) (pos n) m (pos (suc i)) (pos (suc j)) (at_edges [] trailing))
unfolding read_matrix scan_pair scan scan_int
read_matrix-last n false fuel i j m g hi hj e = record {
  out = m;
  returns = refl;
  grid = g;
  entries = λ x y hx hy. refl;
}
read_matrix-last n true fuel i j m g hi hj e = record {
  out = mark n i j m;
  returns = rw (int_index-eq n i j) (rw (inside n true i j m g hi hj) (ground arith));
  grid = mark-IsIntGrid n i j m g;
  entries =
      λ x y hx hy. ground (arith, mark-entry n i j m x y g hi hj hx hy, entry_at n m i j x y e);
}

read_matrix-Adds :
    (n : ℕ) (trailing : Bool) (es : List (ℕ × ℕ)) (fuel i j : ℕ) (m : List ℕ)
    → length es < fuel
    → IsIntGrid n m
    → i < n
    → j < n
    → entry n m i j ≡ true
    → IsListed n es
    → Adds n es m
        (read_matrix (suc fuel) (pos n) m (pos (suc i)) (pos (suc j)) (at_edges es trailing))
read_matrix-Adds n trailing es zero i j m h g hi hj e l = absurd (omega arith)
read_matrix-Adds n trailing [] (suc fuel) i j m h g hi hj e l =
    read_matrix-last n trailing fuel i j m g hi hj e
read_matrix-Adds n trailing ((x, y) ∷ es) (suc fuel) i j m h g hi hj e l =
    let added =
      read_matrix-Adds n trailing es fuel x y (mark n x y m) (omega arith)
        (mark-IsIntGrid n x y m g) l.0 l.1
        (ground (arith, mark-entry n x y m x y g l.0 l.1 l.0 l.1)) l.2 in
    rw (read_matrix-edge n trailing (suc fuel) x y es (pos (suc i)) (pos (suc j)) m g l.0 l.1)
      record {
        out = added.out;
        returns = added.returns;
        grid = added.grid;
        entries = λ v w hv hw.
            ground (arith, added.entries v w hv hw, mark-entry n x y m v w g l.0 l.1 hv hw);
      }

zeros-IsIntGrid : (n : ℕ) → IsIntGrid n (replicate (n * n) 0)
zeros-IsIntGrid n = record {
  size = length-replicate (n * n) 0;
  bits = λ p. omega (arith, get_or-replicate {A = ℕ} (n * n) p 0);
}

finish_counts :
    (a b : ℤ) (o : Outcome (List ℕ)) (g : Graph)
    → finish a b o ≡ done g
    → (a ≡ g.threads) × (b ≡ g.nodes)
unfolding finish
finish_counts a b (done m) g h = (cc, cc)
finish_counts a b exited g h = absurd cc
finish_counts a b fault g h = absurd cc
finish_counts a b running g h = absurd cc

-- The counts are the file's first two numbers, whatever memory is mapped.
pub load_matrix_counts :
    (fuel t n : ℕ) (es : List (ℕ × ℕ)) (trailing : Bool) (c d a b : ℤ) (memory : List ℕ) (g : Graph)
    → load_matrix fuel
        (some (open_file (num (pos t) ∷ num (pos n) ∷ edge_words es) trailing))
        c
        d
        a
        b
        memory
      ≡ done g
    → (pos t ≡ g.threads) × (pos n ≡ g.nodes)
unfolding load_matrix open_matrix scan scan_int
load_matrix_counts fuel t n es trailing c d a b memory g h = finish_counts (pos t) (pos n) _ g h

-- What the processes begin with, for a file of the two counts and one edge or more in fresh memory.
pub load_matrix-listed :
    (fuel t n i j : ℕ) (es : List (ℕ × ℕ)) (trailing : Bool) (t' n' a b : ℤ)
    → IsListed n ((i, j) ∷ es)
    → length es + 2 < fuel
    → (out : List ℕ) × (load_matrix fuel
          (some (open_file (num (pos t) ∷ num (pos n) ∷ edge_words ((i, j) ∷ es)) trailing))
          t'
          n'
          a
          b
          (replicate (n * n) 0)
        ≡ done (record { threads = pos t; nodes = pos n; matrix = out }))
      × IsIntGrid n out
      × ((x y : ℕ) → x < n → y < n → entry n out x y ≡ listed x y ((i, j) ∷ es))
unfolding load_matrix open_matrix scan scan_int finish
load_matrix-listed zero t n i j es trailing t' n' a b l h = absurd (omega arith)
load_matrix-listed (suc zero) t n i j es trailing t' n' a b l h = absurd (omega arith)
load_matrix-listed (suc (suc fuel)) t n i j es trailing t' n' a b l h =
    let z = zeros-IsIntGrid n in
    let zeros : List ℕ = replicate (n * n) 0 in
    let added =
      read_matrix-Adds n trailing es fuel i j (mark n i j zeros) (omega arith)
        (mark-IsIntGrid n i j zeros z) l.0 l.1
        (ground (arith, mark-entry n i j zeros i j z l.0 l.1 l.0 l.1)) l.2 in
    (
      added.out,
      rw (read_matrix-edge n trailing (suc fuel) i j es a b zeros z l.0 l.1)
          (rw added.returns refl),
      added.grid,
      λ x y hx hy. ground (
        arith,
        added.entries x y hx hy,
        mark-entry n i j zeros x y z l.0 l.1 hx hy,
        get_or-replicate {A = ℕ} (n * n) (y + x * n) 0,
      ),
    )
