-- ===== src/Closure/Programs.antt =====
-- Project_1/Stuff: the `switch` of wtc.c, and its four programs from the file to the
-- output. `fork`, the mapping of the shared memory, the clock and the release of memory leave
-- no trace in what is printed. A run in which a child cannot be made is no run here.
pub mod Bits
pub mod Table
pub mod Laws
mod Tests
use os_design.Prelude.{
  ℕ, suc, ◌*◌, ◌≡◌, List, Option, none, some, length, replicate, ◌==◌, if◌then◌else◌,
}
use os_design.Prelude.Int.{ℤ, pos, negsuc}
use os_design.Closure.ReadFile.{File, read_file, Outcome, done}
use os_design.Closure.Threads.{Machine, joined}
use os_design.Closure.Threads
use os_design.Closure.Bag
use os_design.Closure.Processes.{set_queue, Rounds}
use os_design.Closure.Blocks.{AfterRounds}
use os_design.Closure.IntFile.{load_matrix}
use os_design.Closure.Output.{print_matrix, print_matrix2}

pub data Program : Type 0 where
  wtc_proc : Program
  wtc_thr : Program
  wtc_btproc : Program
  wtc_btthr : Program

-- `switch(atoi(argv[1]))`.
pub selection : ℤ → Option Program
selection (pos number) =
    if number == 1
    then some wtc_proc
    else if number == 2
    then some wtc_thr
    else if number == 3
    then some wtc_btproc
    else if number == 4
    then some wtc_btthr
    else none
selection (negsuc number) = none

-- What a run prints, for `fuel` turns of the loop over the file. Locals that are not initialised
-- hold anything, and the memory behind `shm_open` is fresh.
pub data Run (fuel : ℕ) (file : Option File) : Program → List (List ℕ) → Type 0 where
  threads_joined :
      {t n : ℕ} {matrix : List ℕ} {s : Machine}
      → read_file fuel file ≡ done (record { threads = pos t; nodes = pos n; matrix = matrix })
      → Threads.Reach n t matrix s
      → s.main ≡ joined
      → Run fuel file wtc_thr (print_matrix s.matrix n)
  bag_joined :
      {t n : ℕ} {matrix : List ℕ} {s : Bag.Machine}
      → read_file fuel file ≡ done (record { threads = pos t; nodes = pos n; matrix = matrix })
      → Bag.Reach n t matrix s
      → s.main ≡ Bag.joined
      → Run fuel file wtc_btthr (print_matrix s.matrix n)
  blocks_done :
      {t n size : ℕ} {matrix last : List ℕ} (t' n' a b : ℤ)
      → load_matrix fuel file t' n' a b (replicate size 0)
        ≡ done (record { threads = pos t; nodes = pos n; matrix = matrix })
      → size ≡ n * n
      → AfterRounds n t matrix n last
      → Run fuel file wtc_proc (print_matrix2 last n)
  queue_done :
      {t n size : ℕ} {matrix last : List ℕ} (t' n' a b : ℤ) (queue : List ℤ)
      → load_matrix fuel file t' n' a b (replicate size 0)
        ≡ done (record { threads = pos t; nodes = pos n; matrix = matrix })
      → size ≡ n * n
      → length queue ≡ suc n
      → Rounds n t (set_queue queue n) matrix n last
      → Run fuel file wtc_btproc (print_matrix2 last n)
