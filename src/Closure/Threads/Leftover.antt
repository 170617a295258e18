-- ===== src/Closure/Threads/Leftover.antt =====
-- wtc_thr.c gives each thread `number_of_nodes/number_of_threads` rows. The rows left over by that
-- division belong to no thread.
use os_design.Prelude.{
  ℕ, ◌*◌, ◌/◌, ◌<◌, ◌≤◌, ◌≡◌, refl, List, true, false, ltb, arith, inl, inr, Bool-cases, ◌↔◌, ◌∙◌,
}
use os_design.Closure.Grid.{cell, entry, IsGrid, entry-set, bit_array_set-IsGrid}
use os_design.Closure.Walks.{Walk}
use os_design.Closure.Threads.{
  Pc, col, MainPc, testing, counting, Machine, relax, end_row, next_pc, next_matrix, turn,
  main_turn, Step, thread, main, barrier, kbarrier, join, Reach, here, next,
}

-- A thread stays with its rows, which end at `hi`.
abbrev Owns : ℕ → Pc → Type 0
Owns hi (col i ik j) = i < hi
Owns hi _ = Unit

-- The entries of the rows from `lo` on are those of `a`.
abbrev SameFrom : ℕ → ℕ → List ℕ → List ℕ → Type 0
SameFrom n lo a m = (x y : ℕ) → lo ≤ x → x < n → y < n → entry n m x y ≡ entry n a x y

module _ (n : ℕ) (a : List ℕ) (threads : ℕ) where
  abbrev share : ℕ
  share = n / threads

  record Kept (s : Machine) : Type 0 where
    grid : IsGrid n s.matrix
    owns : (t : ℕ) → t < threads → Owns (end_row share t) (s.pc t)
    same : SameFrom n (threads * share) a s.matrix

  relax-IsGrid : (k i ik j : ℕ) (m : List ℕ) → IsGrid n m → IsGrid n (relax n k i ik j m)
  unfolding relax
  relax-IsGrid k i ik j m g = ground (arith, bit_array_set-IsGrid n m (cell n i j) g)

  relax-SameFrom :
      (k i ik j lo : ℕ) (m : List ℕ)
      → IsGrid n m
      → i < lo
      → lo ≤ n
      → j < n
      → SameFrom n lo m (relax n k i ik j m)
  unfolding relax
  relax-SameFrom k i ik j lo m g hi fits hj x y hl hx hy =
      ground (arith, entry-set n m i j x y g (omega arith) hj hx hy)

  own_row :
      (t i : ℕ) → t < threads → i < end_row share t → (i < threads * share) × (threads * share ≤ n)
  own_row t i lt h = (grind arith, grind arith)

  next_matrix-Kept :
      (k t : ℕ) (p : Pc) (m : List ℕ)
      → t < threads
      → IsGrid n m
      → Owns (end_row share t) p
      → IsGrid n (next_matrix n k p m) × SameFrom n (threads * share) m (next_matrix n k p m)
  unfolding next_matrix
  next_matrix-Kept k t (col i ik j) m lt g own = elim (Bool-cases (ltb j n)) [
    | inl more ↦
        let b = own_row t i lt own in
        rw more (
          relax-IsGrid k i ik j m g,
          relax-SameFrom k i ik j (threads * share) m g b.0 b.1 (ground arith),
        )
    | inr done ↦ rw done (g, λ x y hl hx hy. refl)
  ]
  next_matrix-Kept k t p m lt g own = (g, λ x y hl hx hy. refl)

  next_pc-Owns :
      (k t : ℕ) (m : List ℕ) (p : Pc)
      → Owns (end_row share t) p
      → Owns (end_row share t) (next_pc n share k t m p)
  unfolding next_pc
  next_pc-Owns k t m (col i ik j) own = ground arith
  next_pc-Owns k t m p own = ground arith

  main_turn-Kept : (s : Machine) (p : MainPc) → Kept s → Kept (main_turn n p s)
  unfolding main_turn
  main_turn-Kept s testing w = record { grid = w.grid; owns = w.owns; same = w.same }
  main_turn-Kept s counting w = record { grid = w.grid; owns = w.owns; same = w.same }
  main_turn-Kept s p w = w

  Step-Kept : {s u : Machine} → Step n threads s u → Kept s → Kept u
  unfolding turn
  Step-Kept {s} (thread t lt) w =
      let b = next_matrix-Kept s.k t (s.pc t) s.matrix lt w.grid (w.owns t lt) in
      record {
        grid = b.0;
        owns =
            λ u hu. ground (arith, w.owns u hu, next_pc-Owns s.k t s.matrix (s.pc t) (w.owns t lt));
        same = λ x y hl hx hy. b.1 x y hl hx hy ∙ w.same x y hl hx hy;
      }
  Step-Kept {s} main w = main_turn-Kept s s.main w
  Step-Kept {s} (barrier e all) w = record { grid = w.grid; owns = λ t lt. tt; same = w.same }
  Step-Kept {s} (kbarrier e all) w = record { grid = w.grid; owns = λ t lt. tt; same = w.same }
  Step-Kept {s} (join e all) w = record { grid = w.grid; owns = w.owns; same = w.same }

  Reach-Kept : {s : Machine} → IsGrid n a → Reach n threads a s → Kept s
  Reach-Kept g here = record { grid = g; owns = λ t lt. tt; same = λ x y hl hx hy. refl }
  Reach-Kept g (next r st) = Step-Kept st (Reach-Kept g r)

-- No step of any schedule changes an entry of a left-over row: one from the number of threads times
-- the quotient of nodes by threads on.
pub leftover_unchanged :
    {n threads : ℕ} {a : List ℕ} {s : Machine}
    → IsGrid n a
    → Reach n threads a s
    → (i j : ℕ) → threads * (n / threads) ≤ i
    → i < n
    → j < n
    → entry n s.matrix i j ≡ entry n a i j
leftover_unchanged {n} {threads} {a} g r i j lo hi hj =
    (Reach-Kept n a threads g r).same i j lo hi hj

-- So a path of two edges or more that starts in a left-over row, to a node that is no direct
-- successor, is missed in every reachable state, the final one included.
pub leftover_missed :
    {n threads : ℕ} {a : List ℕ} {s : Machine}
    → IsGrid n a
    → Reach n threads a s
    → (i j : ℕ) → threads * (n / threads) ≤ i
    → i < n
    → j < n
    → Walk n (entry n a) i j
    → entry n a i j ≡ false
    → ¬ ((entry n s.matrix i j ≡ true) ↔ Walk n (entry n a) i j)
leftover_missed g r i j lo hi hj w e claim =
    ground (arith, leftover_unchanged g r i j lo hi hj, claim.1 w)
