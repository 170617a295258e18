-- ===== src/Closure/Bag/Tests.antt =====
-- One thread and twelve nodes, up to the row that the thread takes.
use os_design.Prelude.{ℕ, ◌*◌, ◌≡◌, ◌↔◌, true, refl, List, some, arith, ℕ_discrete}
use os_design.Closure.BitArray.{bit_array_create}
use os_design.Closure.Grid.{entry, bit_array_create-IsGrid}
use os_design.Closure.Bag.{
  Machine, reading, act, take_row, is_over, main_turn, Reach, here, next, thread, main, kbarrier,
}
use os_design.Closure.Walks.{Walk}
use os_design.Closure.Bag.{joined}
use os_design.Closure.Bag.Alone.{bag_ends}
use os_design.Closure.Bag.Joined.{bag_joined-iff-Walk}
use os_design.Closure.Bag.Laws.{bag_unchanged}

abbrev empty : List ℕ
empty = bit_array_create (12 * 12)

begun : (s : Machine) × Reach 12 1 empty s × (s.pc 0 ≡ reading) × (s.i 0 ≡ some 10)
unfolding act take_row is_over main_turn ℕ_discrete
begun = (
  _,
  next
      (next
        (next (next (next (next here main) main) (thread 0 (omega arith)))
          (kbarrier refl (λ t h. ground arith)))
        (thread 0 (omega arith)))
      (thread 0 (omega arith)),
  refl,
  refl,
)

bag_unchanged_example : entry 12 begun.0.matrix 11 3 ≡ entry 12 empty 11 3
bag_unchanged_example =
    bag_unchanged (bit_array_create-IsGrid 12 (omega arith)) (omega arith) begun.1 11 3
      (omega arith) (omega arith) (omega arith)

abbrev blank : List ℕ
blank = bit_array_create 121

blank_run : (s : Machine) × Reach 11 1 blank s × (s.main ≡ joined)
blank_run = bag_ends 11 blank

bag_joined-iff-Walk_example :
    (entry 11 blank_run.0.matrix 2 3 ≡ true) ↔ Walk 11 (entry 11 blank) 2 3
bag_joined-iff-Walk_example =
    bag_joined-iff-Walk {threads = 1} {a = blank} {s = blank_run.0}
      (bit_array_create-IsGrid 11 (omega arith)) (omega arith) blank_run.1 blank_run.2 2 3
      (omega arith) (omega arith)
