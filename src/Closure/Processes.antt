-- ===== src/Closure/Processes.antt =====
-- Project_1/Stuff/wtc_btproc.c: child processes take the columns of a matrix of `int` from a queue
-- in shared memory. Each of the two semaphores makes what it guards one step: a pop, and the whole
-- update of a column. Between the two barriers of a round the parent sets `qNum` to 0.
-- The indices are numbers without bound, of a matrix that fits the memory.
pub mod Column
pub mod Found
pub mod Round
pub mod Work
pub mod Laws
pub mod Sample
mod Tests
use os_design.Prelude.{
  ℕ, zero, suc, ◌+◌, ◌*◌, ◌<◌, ◌≡◌, ◌≢◌, List, [], ◌∷◌, Bool, true, false, ◌&&◌, ◌||◌, not, ltb,
  ◌==◌, if◌then◌else◌, get_or, set, Option, none, some, ℕ_discrete,
}
use mathlib.Core.Logic.{ite}
use os_design.Prelude.Int.{ℤ, pos, negsuc, eq_ℤ}

-- The loop of `setQueue` from `l` on, and the -1 behind it.
pub fill_queue : List ℤ → ℕ → ℕ → List ℤ
fill_queue queue l zero = set queue l (negsuc 0)
fill_queue queue l (suc left) = fill_queue (set queue l (pos l)) (suc l) left

pub set_queue : List ℤ → ℕ → List ℤ
unfolding fill_queue
set_queue queue line_count = fill_queue queue 0 line_count

-- `queue[*qNum]`; `none` is a read behind the queue.
pub at_queue : List ℤ → ℕ → Option ℤ
at_queue [] i = none
at_queue (x ∷ xs) zero = some x
at_queue (x ∷ xs) (suc i) = at_queue xs i

-- The number taken, and `*qNum` after it.
pub popped : Option ℤ → ℕ → Option (ℤ × ℕ)
popped none q_num = none
popped (some y) q_num = some (y, (if eq_ℤ y (negsuc 0) then q_num else q_num + 1))

pub queue_pop : List ℤ → ℕ → Option (ℤ × ℕ)
unfolding at_queue popped
queue_pop queue q_num = popped (at_queue queue q_num) q_num

-- Is `matrix[i]` true?
abbrev pub holds : List ℕ → ℕ → Bool
holds matrix i = not (get_or matrix i 0 == 0)

-- The body of the loop over `j`.
unfoldable pub relax : ℕ → ℕ → ℕ → ℕ → List ℕ → List ℕ
relax n k y j m =
    set m (y + j * n)
      (if holds m (y + j * n) || (holds m (y + k * n) && holds m (k + j * n)) then 1 else 0)

-- The first `j` turns of that loop, from `j = 0` on.
unfoldable pub column : ℕ → ℕ → ℕ → List ℕ → ℕ → List ℕ
unfolding relax
column n k y m zero = m
column n k y m (suc j) = relax n k y j (column n k y m j)

-- Where a child stands in `childCompute`: before a `queuePop`, with a column, or behind the loop.
pub data Child : Type 0 where
  popping : Child
  computing : (y : ℕ) → Child
  at_barrier : Child

pub record Shared : Type 0 where
  pub matrix : List ℕ
  pub q_num : ℕ
  pub child : ℕ → Child

abbrev pub move : (ℕ → Child) → ℕ → Child → ℕ → Child
move child t c u = ite (ℕ_discrete t u) c (child u)

-- What a child does with the number that it took: `y != -1`. The queue has no other negative number.
pub take : ℤ → Child
take (pos y) = computing y
take (negsuc y) = at_barrier

-- The steps of a round `k`, with the queue for `n` lines.
pub data Step (n k threads : ℕ) (queue : List ℤ) (s : Shared) : Shared → Type 0 where
  pop :
      (t : ℕ)
      → t < threads
      → s.child t ≡ popping
      → (y : ℤ) (q : ℕ) → queue_pop queue s.q_num ≡ some (y, q)
      → Step n k threads queue s (record s { q_num = q; child = move s.child t (take y) })
  compute :
      (t y : ℕ)
      → t < threads
      → s.child t ≡ computing y
      → Step n k threads queue s
          (record s { matrix = column n k y s.matrix n; child = move s.child t popping })

-- The states of round `k` that begins with the matrix `m`.
pub data Reach (n k threads : ℕ) (queue : List ℤ) (m : List ℕ) : Shared → Type 0 where
  here : Reach n k threads queue m (record { matrix = m; q_num = 0; child = λ t. popping })
  next :
      {s u : Shared}
      → Reach n k threads queue m s
      → Step n k threads queue s u
      → Reach n k threads queue m u

-- The matrices after `k` rounds: a round ends when all the children are at the barrier.
pub data Rounds (n threads : ℕ) (queue : List ℤ) (m : List ℕ) : ℕ → List ℕ → Type 0 where
  begin : Rounds n threads queue m 0 m
  round :
      {k : ℕ} {m' : List ℕ} {s : Shared}
      → Rounds n threads queue m k m'
      → Reach n k threads queue m' s
      → ((t : ℕ) → t < threads → s.child t ≡ at_barrier)
      → Rounds n threads queue m (suc k) s.matrix
