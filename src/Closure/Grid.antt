-- ===== src/Closure/Grid.antt =====
-- The square matrix of Project_1/Stuff that `data_matrix` packs into a bit array, row by row.
-- `bit_array_get(data_matrix, i*number_of_nodes+j)` converts the index to `unsigned`.
use os_design.Prelude.{
  ℕ, ◌+◌, ◌*◌, ◌%◌, ◌^◌, ◌<◌, ◌≤◌, ◌≡◌, ap, List, Bool, ◌&&◌, ◌||◌, ◌==◌, length, if◌then◌else◌,
  arith, dec_lt,
}
use os_design.Closure.BitArray.{bit_array_get, bit_array_set, bit_array_create}
use os_design.Closure.BitArray.Laws.{
  IsBytes, bit_array_set-IsBytes, length-bit_array_set, bit_array_create-IsBytes,
  length-bit_array_create, get-create, get-set,
}

abbrev pub cell : ℕ → ℕ → ℕ → ℕ
cell n i j = (i * n + j) % 2 ^ 32

-- The entry of row `i` and column `j`.
unfoldable pub entry : ℕ → List ℕ → ℕ → ℕ → Bool
entry n a i j = bit_array_get a (cell n i j) == 1

-- A block of bytes with room for the matrix.
pub record IsGrid (n : ℕ) (a : List ℕ) : Type 0 where
  pub small : n * n < 2 ^ 31
  pub bytes : IsBytes a
  pub room : n * n ≤ 8 * length a

pub index-lt : (n i j : ℕ) → i < n → j < n → i * n + j < n * n
index-lt n i j hi hj = grind arith

index_row : (n i j x y : ℕ) → j < n → y < n → i < x → i * n + j < x * n + y
index_row n i j x y hj hy lt = grind arith

pub index_injective : (n i j x y : ℕ) → j < n → y < n → i * n + j ≡ x * n + y → (i ≡ x) × (j ≡ y)
index_injective n i j x y hj hy e = elim (dec_lt i x) [
  | yes p ↦ absurd (omega (arith, index_row n i j x y hj hy p))
  | no p ↦ elim (dec_lt x i) [
    | yes q ↦ absurd (omega (arith, index_row n x y i j hy hj q))
    | no q ↦ let same : i ≡ x = omega arith in (same, omega (arith, ap (λ (t : ℕ). t * n) same))
  ]
]

module _ (n : ℕ) (small : n * n < 2 ^ 31) where
  pub cell-eq : (i j : ℕ) → i < n → j < n → cell n i j ≡ i * n + j
  cell-eq i j hi hj = omega (arith, index-lt n i j hi hj)

  -- Every index that the loops form is inside the matrix.
  pub cell-lt : (i j : ℕ) → i < n → j < n → cell n i j < n * n
  cell-lt i j hi hj = omega (arith, index-lt n i j hi hj)

  cell_beq :
      (i j x y : ℕ)
      → i < n
      → j < n
      → x < n
      → y < n
      → (cell n i j == cell n x y) ≡ ((i == x) && (j == y))
  cell_beq i j x y hi hj hx hy = ground (
    arith,
    cell-eq i j hi hj,
    cell-eq x y hx hy,
    λ (e : i * n + j ≡ x * n + y). index_injective n i j x y hj hy e,
  )

-- Setting the bit of one entry leaves every other entry as it was.
pub entry-set :
    (n : ℕ) (a : List ℕ) (i j x y : ℕ)
    → IsGrid n a
    → i < n
    → j < n
    → x < n
    → y < n
    → entry n (bit_array_set a (cell n i j)) x y ≡ ((i == x && (j == y)) || entry n a x y)
unfolding entry
entry-set n a i j x y g hi hj hx hy =
    let inside : cell n i j < 8 * length a = omega (arith, g.room, cell-lt n g.small i j hi hj) in
    ground (
      arith,
      get-set a (cell n i j) (cell n x y) g.bytes inside,
      cell_beq n g.small i j x y hi hj hx hy,
    )

pub bit_array_set-IsGrid : (n : ℕ) (a : List ℕ) (p : ℕ) → IsGrid n a → IsGrid n (bit_array_set a p)
bit_array_set-IsGrid n a p g = record {
  small = g.small;
  bytes = bit_array_set-IsBytes a p g.bytes;
  room = omega (arith, g.room, length-bit_array_set a p);
}

pub bit_array_create-IsGrid : (n : ℕ) → n * n < 2 ^ 31 → IsGrid n (bit_array_create (n * n))
bit_array_create-IsGrid n small = record {
  small = small;
  bytes = bit_array_create-IsBytes (n * n);
  room = omega (arith, length-bit_array_create (n * n));
}

pub entry-create : (n i j : ℕ) → entry n (bit_array_create (n * n)) i j ≡ Bool.false
unfolding entry
entry-create n i j = ground (arith, get-create (n * n) (cell n i j))

pub get-entry :
    (n : ℕ) (a : List ℕ) (i j : ℕ) → bit_array_get a (cell n i j) ≡ (if entry n a i j then 1 else 0)
unfolding entry bit_array_get
get-entry n a i j = ground arith
