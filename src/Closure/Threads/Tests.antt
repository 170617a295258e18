-- ===== src/Closure/Threads/Tests.antt =====
-- The theorems on wtc_thr.c at small graphs, and runs of it.
use os_design.Prelude.{ℕ, ◌≡◌, ◌↔◌, ◌≢◌, refl, List, [], ◌∷◌, true, false, arith}
use os_design.Closure.BitArray.{bit_array_get}
use os_design.Closure.Grid.{entry, IsGrid}
use os_design.Closure.Walks.{Walk, edge, more}
use os_design.Closure.Threads.{Machine, joined}
use os_design.Closure.Threads.Schedule.{run}
use os_design.Closure.Threads.Laws.{joined-iff-Walk, CanMove, no_deadlock}
use os_design.Closure.Threads.Leftover.{leftover_missed}

-- Three nodes and the edges from 0 to 1 and from 1 to 2, in two bytes.
abbrev chain : List ℕ
chain = 34 ∷ 0 ∷ []

chain-IsGrid : IsGrid 3 chain
chain-IsGrid = record { small = omega arith; bytes = λ i. grind arith; room = omega arith }

-- Three threads, one row each.
abbrev finish : Machine
finish = (run 3 3 chain 40).last

chain_closed : finish.matrix ≡ 38 ∷ 0 ∷ []
unfolding run
chain_closed = refl

finish_joined : finish.main ≡ joined
unfolding run
finish_joined = refl

joined-iff-Walk_example : (entry 3 finish.matrix 0 2 ≡ true) ↔ Walk 3 (entry 3 chain) 0 2
joined-iff-Walk_example =
    joined-iff-Walk {n = 3} {threads = 3} {a = chain} {s = finish} chain-IsGrid (omega arith)
      (run 3 3 chain 40).reach finish_joined 0 2 (omega arith) (omega arith)

abbrev early : Machine
early = (run 3 3 chain 2).last

early_open : early.main ≢ joined
unfolding run
early_open e = cc

no_deadlock_example : CanMove 3 3 early
no_deadlock_example =
    no_deadlock {n = 3} {threads = 3} {a = chain} {s = early} chain-IsGrid (omega arith)
      (run 3 3 chain 2).reach early_open

-- Three nodes and two threads: the edges from 2 to 0 and from 0 to 1.
abbrev bend : List ℕ
bend = 66 ∷ 0 ∷ []

bend-IsGrid : IsGrid 3 bend
bend-IsGrid = record { small = omega arith; bytes = λ i. grind arith; room = omega arith }

abbrev uneven : Machine
uneven = (run 3 2 bend 40).last

uneven_result : (uneven.main ≡ joined) × (uneven.matrix ≡ 66 ∷ 0 ∷ [])
unfolding run
uneven_result = (refl, refl)

two_zero : entry 3 bend 2 0 ≡ true
unfolding entry bit_array_get
two_zero = refl

zero_one : entry 3 bend 0 1 ≡ true
unfolding entry bit_array_get
zero_one = refl

two_one : entry 3 bend 2 1 ≡ false
unfolding entry bit_array_get
two_one = refl

leftover_missed_example : ¬ ((entry 3 uneven.matrix 2 1 ≡ true) ↔ Walk 3 (entry 3 bend) 2 1)
leftover_missed_example =
    leftover_missed {n = 3} {threads = 2} {a = bend} {s = uneven} bend-IsGrid
      (run 3 2 bend 40).reach 2 1 (omega arith) (omega arith) (omega arith)
      (more two_zero (omega arith) (edge zero_one)) two_one
