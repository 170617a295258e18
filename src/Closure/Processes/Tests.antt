-- ===== src/Closure/Processes/Tests.antt =====
-- The theorems on wtc_btproc.c at two nodes that point at each other.
use os_design.Prelude.{ℕ, ◌<◌, ◌≤◌, ◌≡◌, ◌↔◌, ◌*◌, refl, List, true, length, arith}
use os_design.Closure.Walks.{Walk}
use os_design.Closure.Processes.{Step, set_queue, Shared, Rounds}
use os_design.Closure.Processes.Column.{entry}
use os_design.Closure.Processes.Work.{work, Rounds-end}
use os_design.Closure.Processes.Laws.{Rounds-iff-Walk}
use os_design.Closure.Processes.Sample.{queue, cycle, both, cycle-Rounds}

Rounds-iff-Walk_example :
    (length (both 1 (both 0 cycle)) ≡ 2 * 2)
    × ((x y : ℕ)
        → x < 2
        → y < 2
        → (entry 2 (both 1 (both 0 cycle)) x y ≡ true) ↔ Walk 2 (entry 2 cycle) x y)
Rounds-iff-Walk_example =
    Rounds-iff-Walk 2 1 queue cycle (both 1 (both 0 cycle)) (omega arith) (omega arith) refl
      cycle-Rounds

Rounds-end_example :
    ((k : ℕ) (s u : Shared)
      → s.q_num ≤ 2
      → Step 2 k 1 (set_queue queue 2) s u
      → (u.q_num ≤ 2) × (work 2 1 u < work 2 1 s))
    × ((m : List ℕ) (k : ℕ) → (m' : List ℕ) × Rounds 2 1 (set_queue queue 2) m k m')
Rounds-end_example = Rounds-end 2 1 queue (omega arith)
