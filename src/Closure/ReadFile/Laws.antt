-- ===== src/Closure/ReadFile/Laws.antt =====
-- What `read_file` of functions.c makes of a file that lists the edges of a graph.
use os_design.Prelude.{
  ℕ, zero, suc, ◌+◌, ◌*◌, ◌/◌, ◌^◌, ◌<◌, ◌≡◌, refl, List, [], ◌∷◌, Bool, true, false, ◌&&◌, ◌||◌,
  not, ltb, ◌==◌, length, some, arith,
}
use os_design.Prelude.Int.{ℤ, pos, ◌+ℤ◌, ◌-ℤ◌, ◌*ℤ◌, to_u32}
use os_design.Closure.BitArray.{bit_array_create, bit_array_set}
use os_design.Closure.Grid.{
  cell, cell-lt, entry, IsGrid, entry-set, bit_array_set-IsGrid, bit_array_create-IsGrid,
  entry-create,
}
use os_design.Closure.ReadFile.{
  Word, num, File, open_file, scan_int, scan, scan_pair, Outcome, done, index, read_pairs, finish,
  read_file,
}

-- The words of the edges, whose ends are counted from 1 in the file.
abbrev pub edge_words : List (ℕ × ℕ) → List Word
edge_words [] = []
edge_words ((i, j) ∷ es) = num (pos (suc i)) ∷ num (pos (suc j)) ∷ edge_words es

abbrev pub IsListed : ℕ → List (ℕ × ℕ) → Type 0
IsListed n [] = Unit {0}
IsListed n ((i, j) ∷ es) = (i < n) × (j < n) × IsListed n es

abbrev pub listed : ℕ → ℕ → List (ℕ × ℕ) → Bool
listed x y [] = false
listed x y ((i, j) ∷ es) = (i == x && (j == y)) || listed x y es

index-cell : (n i j : ℕ) → index (pos n) (pos (suc i)) (pos (suc j)) ≡ cell n i j
unfolding index ◌+ℤ◌ ◌-ℤ◌ ◌*ℤ◌
index-cell n i j = ground arith

-- The file where the words `es` are still to be read.
abbrev pub at_edges : List (ℕ × ℕ) → Bool → File
at_edges [] trailing = record { left = []; trailing = trailing; eof = not trailing }
at_edges es trailing = record { left = edge_words es; trailing = trailing; eof = false }

-- The matrix `m'` is `m` with the edges added.
pub record Adds (n : ℕ) (es : List (ℕ × ℕ)) (m : List ℕ) (o : Outcome (List ℕ)) : Type 0 where
  pub out : List ℕ
  pub returns : o ≡ done out
  pub grid : IsGrid n out
  pub entries : (x y : ℕ) → x < n → y < n → entry n out x y ≡ (listed x y es || entry n m x y)

module _ (n : ℕ) (trailing : Bool) where
  inside :
      (i j : ℕ) (m : List ℕ)
      → IsGrid n m
      → i < n
      → j < n
      → ltb (index (pos n) (pos (suc i)) (pos (suc j)) / 8) (length m) ≡ true
  inside i j m g hi hj = rw (index-cell n i j) (ground (arith, cell-lt n g.small i j hi hj, g.room))

  -- The turn of the loop that reads an edge.
  read_pairs-edge :
      (fuel i j : ℕ) (es : List (ℕ × ℕ)) (a b : ℤ) (m : List ℕ)
      → IsGrid n m
      → i < n
      → j < n
      → read_pairs (suc fuel) (pos n) m a b (at_edges ((i, j) ∷ es) trailing)
        ≡ read_pairs fuel
            (pos n)
            (bit_array_set m (cell n i j))
            (pos (suc i))
            (pos (suc j))
            (at_edges es trailing)
  unfolding read_pairs scan_pair scan scan_int
  read_pairs-edge fuel i j [] a b m g hi hj =
      rw (inside i j m g hi hj) (rw (index-cell n i j) (ground arith))
  read_pairs-edge fuel i j ((x, y) ∷ es) a b m g hi hj =
      rw (inside i j m g hi hj) (rw (index-cell n i j) (ground arith))

entry_at :
    (n : ℕ) (m : List ℕ) (i j x y : ℕ)
    → entry n m i j ≡ true
    → (i == x && (j == y)) ≡ true
    → entry n m x y ≡ true
entry_at n m i j x y e h = let same : (i ≡ x) × (j ≡ y) = ground arith in rw (← same.0, ← same.1) e

-- The last edge has been read. If anything follows it in the file the loop turns once more, and
-- sets the same entry again.
read_pairs-last :
    (n : ℕ) (trailing : Bool) (fuel i j : ℕ) (m : List ℕ)
    → IsGrid n m
    → i < n
    → j < n
    → entry n m i j ≡ true
    → Adds n [] m
        (read_pairs (suc (suc fuel)) (pos n) m (pos (suc i)) (pos (suc j)) (at_edges [] trailing))
unfolding read_pairs scan_pair scan scan_int
read_pairs-last n false fuel i j m g hi hj e = record {
  out = m;
  returns = refl;
  grid = g;
  entries = λ x y hx hy. refl;
}
read_pairs-last n true fuel i j m g hi hj e = record {
  out = bit_array_set m (cell n i j);
  returns = rw (inside n true i j m g hi hj) (rw (index-cell n i j) (ground arith));
  grid = bit_array_set-IsGrid n m (cell n i j) g;
  entries =
      λ x y hx hy. ground (arith, entry-set n m i j x y g hi hj hx hy, entry_at n m i j x y e);
}

read_pairs-Adds :
    (n : ℕ) (trailing : Bool) (es : List (ℕ × ℕ)) (fuel i j : ℕ) (m : List ℕ)
    → length es < fuel
    → IsGrid n m
    → i < n
    → j < n
    → entry n m i j ≡ true
    → IsListed n es
    → Adds n es m
        (read_pairs (suc fuel) (pos n) m (pos (suc i)) (pos (suc j)) (at_edges es trailing))
read_pairs-Adds n trailing es zero i j m h g hi hj e l = absurd (omega arith)
read_pairs-Adds n trailing [] (suc fuel) i j m h g hi hj e l =
    read_pairs-last n trailing fuel i j m g hi hj e
read_pairs-Adds n trailing ((x, y) ∷ es) (suc fuel) i j m h g hi hj e l =
    let added =
      read_pairs-Adds n trailing es fuel x y (bit_array_set m (cell n x y)) (omega arith)
        (bit_array_set-IsGrid n m (cell n x y) g) l.0 l.1
        (ground (arith, entry-set n m x y x y g l.0 l.1 l.0 l.1)) l.2 in
    rw (read_pairs-edge n trailing (suc fuel) x y es (pos (suc i)) (pos (suc j)) m g l.0 l.1)
      record {
        out = added.out;
        returns = added.returns;
        grid = added.grid;
        entries = λ v w hv hw.
            ground (arith, added.entries v w hv hw, entry-set n m x y v w g l.0 l.1 hv hw);
      }

pub size-eq : (n : ℕ) → n * n < 2 ^ 31 → to_u32 (pos n *ℤ pos n) ≡ n * n
unfolding ◌*ℤ◌
size-eq n h = ground arith

-- A file of the two counts and one edge or more, with both ends of each edge from 1 to the number
-- of nodes, is read to the end. The matrix has the entries of the listed edges and no other,
-- whether or not anything follows the last word. The square of the number of nodes is below 2 ^ 31,
-- and there is fuel for three turns besides those for the edges after the first.
pub read_file-listed :
    (fuel t n i j : ℕ) (es : List (ℕ × ℕ)) (trailing : Bool)
    → n * n < 2 ^ 31
    → IsListed n ((i, j) ∷ es)
    → length es + 2 < fuel
    → (out : List ℕ) × (read_file fuel
          (some (open_file (num (pos t) ∷ num (pos n) ∷ edge_words ((i, j) ∷ es)) trailing))
        ≡ done (record { threads = pos t; nodes = pos n; matrix = out }))
      × IsGrid n out
      × ((x y : ℕ) → x < n → y < n → entry n out x y ≡ listed x y ((i, j) ∷ es))
unfolding read_file scan scan_int finish
read_file-listed zero t n i j es trailing small l h = absurd (omega arith)
read_file-listed (suc zero) t n i j es trailing small l h = absurd (omega arith)
read_file-listed (suc (suc fuel)) t n i j es trailing small l h =
    let g = bit_array_create-IsGrid n small in
    let empty = bit_array_create (n * n) in
    let added =
      read_pairs-Adds n trailing es fuel i j (bit_array_set empty (cell n i j)) (omega arith)
        (bit_array_set-IsGrid n empty (cell n i j) g) l.0 l.1
        (ground (arith, entry-set n empty i j i j g l.0 l.1 l.0 l.1)) l.2 in
    (
      added.out,
      rw (
        size-eq n small,
        read_pairs-edge n trailing (suc fuel) i j es (pos 0) (pos 0) empty g l.0 l.1,
        added.returns,
      ),
      added.grid,
      λ x y hx hy. ground (
        arith,
        added.entries x y hx hy,
        entry-set n empty i j x y g l.0 l.1 hx hy,
        entry-create n x y,
      ),
    )
