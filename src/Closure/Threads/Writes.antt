-- ===== src/Closure/Threads/Writes.antt =====
-- One write of a thread of wtc_thr.c, in the middle of a round.
use os_design.Prelude.{ℕ, suc, ◌<◌, ◌≡◌, List, true, ◌&&◌, ◌||◌, not, ◌==◌, if◌then◌else◌, arith}
use os_design.Closure.Grid.{cell, entry, IsGrid, entry-set, bit_array_set-IsGrid, get-entry}
use os_design.Closure.Walks.{Edges, via, via-suc, Between, Between-row}
use os_design.Closure.Threads.{relax}

module _ (n k i ik j : ℕ) (m : List ℕ) (g : IsGrid n m) where
  pub relax-IsGrid : IsGrid n (relax n k i ik j m)
  unfolding relax
  relax-IsGrid = ground (arith, bit_array_set-IsGrid n m (cell n i j) g)

  pub relax-entry :
      (x y : ℕ)
      → i < n
      → j < n
      → x < n
      → y < n
      → entry n (relax n k i ik j m) x y
        ≡ (((i == x && (j == y)) && (not (ik == 0) && entry n m k j)) || entry n m x y)
  unfolding relax
  relax-entry x y hi hj hx hy =
      ground (arith, entry-set n m i j x y g hi hj hx hy, get-entry n m k j)

-- `m'` follows `m` in round `k`: no entry is lost, and what is new belongs to the round.
pub record Follows (e : Edges) (n k : ℕ) (m m' : List ℕ) : Type 0 where
  pub grid : IsGrid n m'
  pub between : Between e n k (entry n m')
  pub keeps : (x y : ℕ) → x < n → y < n → entry n m x y ≡ true → entry n m' x y ≡ true

pub Follows-refl :
    (e : Edges) (n k : ℕ) (m : List ℕ) → IsGrid n m → Between e n k (entry n m) → Follows e n k m m
Follows-refl e n k m g b = record { grid = g; between = b; keeps = λ x y hx hy h. h }

module _ (e : Edges) (n k i ik j : ℕ) (m : List ℕ) (g : IsGrid n m) (b : Between e n k (entry n m))
    (hk : k < n) (hi : i < n) (hj : j < n) (read : ik ≡ (if via e k i k then 1 else 0)) where
  pub relax-Follows : Follows e n k m (relax n k i ik j m)
  relax-Follows = record {
    grid = relax-IsGrid n k i ik j m g;
    between = record {
      lower = λ x y hx hy h.
          ground (arith, relax-entry n k i ik j m g x y hi hj hx hy, b.lower x y hx hy h);
      upper = λ x y hx hy h. ground (
        arith,
        relax-entry n k i ik j m g x y hi hj hx hy,
        b.upper x y hx hy,
        via-suc e k i j,
        Between-row e b hk j hj,
      );
    };
    keeps = λ x y hx hy h. ground (arith, relax-entry n k i ik j m g x y hi hj hx hy);
  }

  -- The entry that is written has its final value of the round.
  pub relax_hit : via e (suc k) i j ≡ true → entry n (relax n k i ik j m) i j ≡ true
  relax_hit h = ground (
    arith,
    relax-entry n k i ik j m g i j hi hj hi hj,
    b.lower i j hi hj,
    via-suc e k i j,
    Between-row e b hk j hj,
  )
