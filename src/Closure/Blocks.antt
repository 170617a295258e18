-- ===== src/Closure/Blocks.antt =====
-- Project_1/Stuff/wtc_proc.c: every child process has a block of columns of the matrix of `int`. A
-- semaphore makes the update of a column one step, and one barrier ends a round. The update of a
-- column is written as in wtc_btproc.c. The barrier is taken to work: where in memory it stands is
-- the matter of Closure.Layout.
pub mod Round
pub mod Work
pub mod Laws
mod Tests
use os_design.Prelude.{
  ℕ, zero, suc, ◌+◌, ◌*◌, ◌/◌, ◌<◌, ◌≡◌, List, Bool, true, false, ltb, if◌then◌else◌, ℕ_discrete,
}
use mathlib.Core.Logic.{ite}
use os_design.Closure.Processes.{column}

-- Where a child stands in its loop over the columns.
pub data Worker : Type 0 where
  at_column : (y : ℕ) → Worker
  at_barrier : Worker

pub record Blocks : Type 0 where
  pub matrix : List ℕ
  pub worker : ℕ → Worker

abbrev pub assign : (ℕ → Worker) → ℕ → Worker → ℕ → Worker
assign worker t w u = ite (ℕ_discrete t u) w (worker u)

-- `myId * rowsPer` and `(myId+1) * rowsPer`.
abbrev pub first_column : ℕ → ℕ → ℕ
first_column rows_per t = t * rows_per

abbrev pub end_column : ℕ → ℕ → ℕ
end_column rows_per t = (t + 1) * rows_per

-- A turn of the loop for a child at column `y`.
pub next_worker : ℕ → ℕ → ℕ → Worker
next_worker rows_per t y = if ltb y (end_column rows_per t) then at_column (y + 1) else at_barrier

unfoldable pub next_matrix : ℕ → ℕ → ℕ → ℕ → ℕ → List ℕ → List ℕ
next_matrix n k rows_per t y m = if ltb y (end_column rows_per t) then column n k y m n else m

pub data Turn (n k threads : ℕ) (s : Blocks) : Blocks → Type 0 where
  turn :
      (t y : ℕ)
      → t < threads
      → s.worker t ≡ at_column y
      → Turn n k threads s (record {
        matrix = next_matrix n k (n / threads) t y s.matrix;
        worker = assign s.worker t (next_worker (n / threads) t y);
      })

-- The states of round `k`, which every child begins with its first column.
pub data InRound (n k threads : ℕ) (m : List ℕ) : Blocks → Type 0 where
  here :
      InRound n k threads m
        (record { matrix = m; worker = λ t. at_column (first_column (n / threads) t) })
  next : {s u : Blocks} → InRound n k threads m s → Turn n k threads s u → InRound n k threads m u

-- The matrices after `k` rounds.
pub data AfterRounds (n threads : ℕ) (m : List ℕ) : ℕ → List ℕ → Type 0 where
  begin : AfterRounds n threads m 0 m
  round :
      {k : ℕ} {m' : List ℕ} {s : Blocks}
      → AfterRounds n threads m k m'
      → InRound n k threads m' s
      → ((t : ℕ) → t < threads → s.worker t ≡ at_barrier)
      → AfterRounds n threads m (suc k) s.matrix
