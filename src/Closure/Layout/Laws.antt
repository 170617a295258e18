-- ===== src/Closure/Layout/Laws.antt =====
-- The parts of the shared memory against the size of the mapping.
use os_design.Prelude.{ℕ, ◌+◌, ◌*◌, ◌/◌, ◌<◌, ◌≤◌, ◌≡◌, refl, List, [], ◌∷◌, arith}
use os_design.Closure.Layout.{
  Part, matrix_lock, queue, queue_lock, q_num, barrier1, barrier2, btproc_parts, btproc_size,
  sem_offset, proc_barrier, proc_size,
}

-- The parts stand one behind the other, from `from` to `to`, with no gap and no overlap.
abbrev pub Fill : ℕ → List Part → ℕ → Type 0
Fill from [] to = from ≡ to
Fill from (p ∷ ps) to = (p.at ≡ from) × Fill (from + p.bytes) ps to

grow : (q s : ℕ) → 2 ≤ q → 2 * s ≤ q * s
grow q s two = grind arith

module _ (sem barrier line_count : ℕ) where
  -- The seven parts that `wtc_btproc` takes its pointers to fill the mapping exactly.
  pub btproc_parts-Fill :
      Fill 0 (btproc_parts sem barrier line_count) (btproc_size sem barrier line_count)
  unfolding btproc_parts matrix_lock queue queue_lock q_num barrier1 barrier2 btproc_size
  btproc_parts-Fill = (
    refl,
    (
      omega arith,
      (omega arith, (omega arith, (omega arith, (omega arith, (omega arith, omega arith))))),
    ),
  )

  -- With a `sem_t` of 8 bytes or more, the barrier of `wtc_proc` ends behind the mapping.
  pub proc_barrier_outside :
      8 ≤ sem → proc_size sem barrier line_count < proc_barrier sem barrier line_count + barrier
  unfolding proc_size proc_barrier matrix_lock sem_offset
  proc_barrier_outside big = omega (arith, grow (sem / 4) sem (omega arith))
