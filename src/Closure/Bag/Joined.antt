-- ===== src/Closure/Bag/Joined.antt =====
-- What wtc_btthr.c computes for 11 nodes, over every schedule.
use os_design.Prelude.{
  ℕ, ◌<◌, ◌≤◌, ◌≡◌, refl, sym, inl, inr, List, Option, none, some, true, ltb, Bool-cases, arith,
  ◌↔◌,
}
use mathlib.Core.Path.{subst}
use os_design.Closure.Grid.{entry, IsGrid}
use os_design.Closure.Walks.{Edges, Walk, via, via-zero, via-Walk_iff}
use os_design.Closure.Bag.{
  Pc, looking, locked, reading, col, take_row, read_row, last_waiting, joined, Machine, is_over,
  act, Step, thread, main, kbarrier, barrier, last, join, Reach, here, next,
}
use os_design.Closure.Bag.Phases.{Phase, act-Phase, main_turn-Phase, opens, closes}

read_row_main : (n t : ℕ) (s : Machine) (o : Option ℕ) → (read_row n t s o).main ≡ s.main
unfolding read_row
read_row_main n t s none = refl
read_row_main n t s (some i) = refl

act_main : (n t : ℕ) (s : Machine) (p : Pc) → (act n t s p).main ≡ s.main
unfolding act take_row
act_main n t s looking = refl
act_main n t s reading = read_row_main n t s (s.i t)
act_main n t s locked = elim (Bool-cases (is_over s.queue)) [
  | inl over ↦ rw over refl
  | inr more ↦ rw more refl
]
act_main n t s (col i ik j) = elim (Bool-cases (ltb j n)) [
  | inl more ↦ rw more refl
  | inr over ↦ rw over refl
]
act_main n t s p = refl

module _ (e : Edges) (n threads : ℕ) where
  Step-Phase :
      {s u : Machine}
      → 1 ≤ threads
      → n ≡ 11
      → Phase e n threads s.main s
      → Step n threads s u
      → Phase e n threads u.main u
  Step-Phase {s} child eleven p (thread t lt) =
      subst (λ q. Phase e n threads q (act n t s (s.pc t))) (sym (act_main n t s (s.pc t)))
        (act-Phase e n threads s t lt s.main p)
  Step-Phase {s} child eleven p main = main_turn-Phase e n threads s.main s eleven p refl
  Step-Phase {s} child eleven p (kbarrier at all) =
      opens e n threads s eleven (subst (λ q. Phase e n threads q s) at p)
  Step-Phase {s} child eleven p (barrier at all) =
      closes e n threads s child (subst (λ q. Phase e n threads q s) at p) all
  Step-Phase {s} child eleven p (last at all) =
      let h : Phase e n threads last_waiting s = subst (λ q. Phase e n threads q s) at p in
      ((h.0.0, λ t lt. tt), h.1)
  Step-Phase {s} child eleven p (join at all) = subst (λ q. Phase e n threads q s) at p

Reach-Phase :
    {n threads : ℕ} {a : List ℕ} {s : Machine}
    → IsGrid n a
    → 1 ≤ threads
    → n ≡ 11
    → Reach n threads a s
    → Phase (entry n a) n threads s.main s
Reach-Phase {n} {threads} {a} g child eleven here = (
  (
    record {
      grid = g;
      exact = λ i j hi hj. sym (via-zero (entry n a) i j);
      inside = λ t r e. absurd cc;
    },
    λ t lt. tt,
  ),
  omega arith,
)
Reach-Phase {n} {threads} {a} g child eleven (next r st) =
    Step-Phase (entry n a) n threads child eleven (Reach-Phase g child eleven r) st

pub bag_joined-via :
    {threads : ℕ} {a : List ℕ} {s : Machine}
    → IsGrid 11 a
    → 1 ≤ threads
    → Reach 11 threads a s
    → s.main ≡ joined
    → (i j : ℕ) → i < 11
    → j < 11
    → entry 11 s.matrix i j ≡ via (entry 11 a) 11 i j
bag_joined-via {threads} {a} {s} g child r over i j hi hj =
    let h : Phase (entry 11 a) 11 threads joined s =
      subst (λ q. Phase (entry 11 a) 11 threads q s) over (Reach-Phase g child refl r) in
    rw h.1 at (h.0.0.exact i j hi hj)

-- For 11 nodes and one thread or more, when `wtc_btthr` has joined its threads, in whatever order
-- they ran, an entry of the matrix is set exactly when the graph that was read has a path from the
-- row's node to the column's. This covers threads that go over a row again, as their `i` is stale.
pub bag_joined-iff-Walk :
    {threads : ℕ} {a : List ℕ} {s : Machine}
    → IsGrid 11 a
    → 1 ≤ threads
    → Reach 11 threads a s
    → s.main ≡ joined
    → (i j : ℕ) → i < 11
    → j < 11
    → (entry 11 s.matrix i j ≡ true) ↔ Walk 11 (entry 11 a) i j
bag_joined-iff-Walk {threads} {a} {s} g child r over i j hi hj =
    rw (bag_joined-via g child r over i j hi hj) (via-Walk_iff (entry 11 a) 11 i j)
