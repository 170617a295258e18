-- ===== src/Closure/Threads.antt =====
-- Project_1/Stuff/wtc_thr.c: the rows of the matrix are dealt out to threads, and the rounds are
-- kept apart by two barriers. Any thread may be scheduled at any moment.
-- A thread is created with its number; the hand-over of the number through `input_value` and the
-- clock readings leave no trace in the state. A thread that has not been created yet is one that
-- was never scheduled: the barriers wait for all of them.
pub mod Writes
pub mod Invariant
pub mod Phases
pub mod Laws
pub mod Leftover
pub mod Schedule
mod Tests
use os_design.Prelude.{
  ℕ, suc, ◌+◌, ◌*◌, ◌/◌, ◌<◌, ◌≡◌, List, Bool, true, false, ◌&&◌, not, ltb, ◌==◌, if◌then◌else◌,
  ℕ_discrete,
}
use mathlib.Core.Logic.{ite}
use os_design.Closure.BitArray.{bit_array_get, bit_array_set}
use os_design.Closure.Grid.{cell}

-- Where a thread stands in `transitive_closure_thread`, with the locals that are live there.
pub data Pc : Type 0 where
  test : Pc  -- `while (k < number_of_nodes)`
  row : (i : ℕ) → Pc  -- `i < end`
  col : (i ik j : ℕ) → Pc  -- `j < number_of_nodes`
  at_barrier : Pc
  at_kbarrier : Pc
  finished : Pc

-- Where `wtc_thr` stands, from its `while` on.
pub data MainPc : Type 0 where
  testing : MainPc  -- `while(k < number_of_nodes)`
  waiting : MainPc  -- `pthread_barrier_wait(&barrier)`
  counting : MainPc  -- `++k`
  kwaiting : MainPc  -- `pthread_barrier_wait(&kbarrier)`
  joining : MainPc  -- `pthread_join`
  joined : MainPc

pub record Machine : Type 0 where
  pub matrix : List ℕ
  pub k : ℕ
  pub main : MainPc
  pub pc : ℕ → Pc

abbrev pub update : (ℕ → Pc) → ℕ → Pc → ℕ → Pc
update pc t p u = ite (ℕ_discrete t u) p (pc u)

-- The body of the inner loop, between `pthread_mutex_lock` and `pthread_mutex_unlock`.
pub relax : ℕ → ℕ → ℕ → ℕ → ℕ → List ℕ → List ℕ
relax n k i ik j m =
    let result : ℕ = if not (ik == 0) && not (bit_array_get m (cell n k j) == 0) then 1 else 0 in
    if result == 1 then bit_array_set m (cell n i j) else m

-- The rows of thread `t` are `start ..< end`.
abbrev pub first_row : ℕ → ℕ → ℕ
first_row length t = t * length

abbrev pub end_row : ℕ → ℕ → ℕ
end_row length t = t * length + length

-- What thread `t` does next, on the matrix and in round `k`. At a barrier it stays.
pub next_pc : ℕ → ℕ → ℕ → ℕ → List ℕ → Pc → Pc
next_pc n length k t m test = if ltb k n then row (first_row length t) else finished
next_pc n length k t m (row i) =
    if ltb i (end_row length t) then col i (bit_array_get m (cell n i k)) 0 else at_barrier
next_pc n length k t m (col i ik j) = if ltb j n then col i ik (j + 1) else row (i + 1)
next_pc n length k t m p = p

pub next_matrix : ℕ → ℕ → Pc → List ℕ → List ℕ
next_matrix n k (col i ik j) m = if ltb j n then relax n k i ik j m else m
next_matrix n k p m = m

-- One turn of thread `t`.
pub turn : ℕ → ℕ → ℕ → Machine → Machine
turn n length t s = record s {
  matrix = next_matrix n s.k (s.pc t) s.matrix;
  pc = update s.pc t (next_pc n length s.k t s.matrix (s.pc t));
}

-- One turn of `wtc_thr` itself.
pub main_turn : ℕ → MainPc → Machine → Machine
main_turn n testing s = record s { main = if ltb s.k n then waiting else joining }
main_turn n counting s = record s { k = s.k + 1; main = kwaiting }
main_turn n p s = s

-- The barriers are for `number_of_threads+1`: they open when all threads and `wtc_thr` wait.
pub data Step (n threads : ℕ) (s : Machine) : Machine → Type 0 where
  thread : (t : ℕ) → t < threads → Step n threads s (turn n (n / threads) t s)
  main : Step n threads s (main_turn n s.main s)
  barrier :
      s.main ≡ waiting
      → ((t : ℕ) → t < threads → s.pc t ≡ at_barrier)
      → Step n threads s (record s { main = counting; pc = λ _. at_kbarrier })
  kbarrier :
      s.main ≡ kwaiting
      → ((t : ℕ) → t < threads → s.pc t ≡ at_kbarrier)
      → Step n threads s (record s { main = testing; pc = λ _. test })
  join :
      s.main ≡ joining
      → ((t : ℕ) → t < threads → s.pc t ≡ finished)
      → Step n threads s (record s { main = joined })

-- After `read_file`, with the threads created.
abbrev pub start : List ℕ → Machine
start matrix = record { matrix = matrix; k = 0; main = testing; pc = λ _. test }

pub data Reach (n threads : ℕ) (matrix : List ℕ) : Machine → Type 0 where
  here : Reach n threads matrix (start matrix)
  next : {s u : Machine} → Reach n threads matrix s → Step n threads s u → Reach n threads matrix u
