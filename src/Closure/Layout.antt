-- ===== src/Closure/Layout.antt =====
-- Project_1/Stuff/wtc_btproc.c and wtc_proc.c: where the parts of the shared memory stand. Addresses
-- are bytes from the start of the mapping; an `int` has 4 bytes, and the sizes of `sem_t` and
-- `pthread_barrier_t` are parameters.
pub mod Laws
mod Tests
use os_design.Prelude.{ℕ, suc, ◌+◌, ◌*◌, ◌/◌, List, [], ◌∷◌}

-- A part: its first byte, and how many it has.
pub record Part : Type 0 where
  pub at : ℕ
  pub bytes : ℕ

module _ (sem barrier line_count : ℕ) where
  -- The pointers of `wtc_btproc`.
  pub matrix_lock : ℕ
  matrix_lock = 4 * (line_count * line_count)

  pub queue : ℕ
  unfolding matrix_lock
  queue = matrix_lock + sem

  pub queue_lock : ℕ
  unfolding queue
  queue_lock = queue + 4 * (line_count + 1)

  pub q_num : ℕ
  unfolding queue_lock
  q_num = queue_lock + sem

  pub barrier1 : ℕ
  unfolding q_num
  barrier1 = q_num + 4

  pub barrier2 : ℕ
  unfolding barrier1
  barrier2 = barrier1 + barrier

  -- With the queue's -1, and in the order of the addresses.
  pub btproc_parts : List Part
  unfolding barrier2
  btproc_parts =
      record { at = 0; bytes = 4 * (line_count * line_count) }
      ∷ record { at = matrix_lock; bytes = sem }
      ∷ record { at = queue; bytes = 4 * (line_count + 1) }
      ∷ record { at = queue_lock; bytes = sem }
      ∷ record { at = q_num; bytes = 4 }
      ∷ record { at = barrier1; bytes = barrier }
      ∷ record { at = barrier2; bytes = barrier }
      ∷ []

  pub btproc_size : ℕ
  btproc_size = 4 * line_count * line_count + sem * 2 + 4 * (2 + line_count) + 2 * barrier

  -- `matrixLock + semOffset`, a sum with a pointer to `sem_t`, in `wtc_proc`.
  pub sem_offset : ℕ
  sem_offset = sem / 4

  pub proc_barrier : ℕ
  unfolding matrix_lock sem_offset
  proc_barrier = matrix_lock + sem_offset * sem

  pub proc_size : ℕ
  proc_size = 4 * line_count * line_count + sem + barrier
