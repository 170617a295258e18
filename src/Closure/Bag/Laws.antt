-- ===== src/Closure/Bag/Laws.antt =====
-- Which rows the threads of wtc_btthr.c write, over every schedule.
use os_design.Prelude.{ℕ, ◌+◌, ◌<◌, ◌≤◌, ◌≡◌, refl, inl, inr, List, true, ltb, if◌then◌else◌, arith}
use os_design.Closure.Grid.{entry, IsGrid}
use os_design.Closure.Bag.{
  Pc, test, looking, at_last, MainPc, testing, setting, kwaiting, waiting, counting, last_waiting,
  joining, joined, Machine, main_turn, Step, thread, main, kbarrier, barrier, last, join, start,
  Reach, here, next,
}
use os_design.Closure.Bag.Low.{idle, early, Begins, Low, LowPc, late, act-Low}

goes_on : (k n : ℕ) → k < n → early (if ltb k n then setting else joining) ≡ true
goes_on k n lt = ground arith

-- What the others change: `main`, `k`, and where all the threads stand.
module _ {n : ℕ} {a : List ℕ} {s : Machine} (h : Low n a s) where
  moved-Low :
      (m : MainPc) (k : ℕ) (pc : ℕ → Pc)
      → ((t : ℕ) → LowPc (pc t))
      → ((b : Begins s) → Begins (record s { main = m; k = k; pc = pc }))
      → Low n a (record s { main = m; k = k; pc = pc })
  moved-Low m k pc low keeps = record {
    grid = h.grid;
    rows = h.rows;
    held = h.held;
    cols = low;
    begins = elim h.begins [ inl b ↦ inl (keeps b) | inr q ↦ inr q ];
  }

  main_turn-Low : 11 ≤ n → (p : MainPc) → s.main ≡ p → Low n a (main_turn n p s)
  unfolding main_turn
  main_turn-Low big testing at = moved-Low _ s.k s.pc h.cols (λ b. record {
    main = goes_on s.k n (omega (arith, b.round, big));
    round = b.round;
    idles = b.idles;
  })
  main_turn-Low big setting at = record {
    grid = h.grid;
    rows = h.rows;
    held = h.held;
    cols = h.cols;
    begins = inr (omega arith);
  }
  main_turn-Low big counting at =
      moved-Low last_waiting (s.k + 1) s.pc h.cols (λ b. absurd (late counting b at refl))
  main_turn-Low big p at = h

Step-Low :
    {n threads : ℕ} {a : List ℕ} {s u : Machine}
    → 11 ≤ n
    → Low n a s
    → Step n threads s u
    → Low n a u
Step-Low big h (thread t lt) = act-Low h big t _ refl
Step-Low big h main = main_turn-Low h big _ refl
Step-Low big h (kbarrier at all) =
    moved-Low h waiting _ (λ _. looking) (λ t i ik j e. cc) (λ b. absurd (late kwaiting b at refl))
Step-Low big h (barrier at all) =
    moved-Low h counting _ (λ _. at_last) (λ t i ik j e. cc) (λ b. absurd (late waiting b at refl))
Step-Low big h (last at all) =
    moved-Low h testing _ (λ _. test) (λ t i ik j e. cc) (λ b. absurd (late last_waiting b at refl))
Step-Low big h (join at all) = moved-Low h joined _ _ h.cols (λ b. absurd (late joining b at refl))

start-Low : (n : ℕ) (a : List ℕ) → IsGrid n a → Low n a (start n a)
unfolding idle
start-Low n a g = record {
  grid = g;
  rows = λ x y lo hx hy. refl;
  held = λ t r e. cc;
  cols = λ t i ik j e. cc;
  begins = inl (record { main = refl; round = refl; idles = λ t. refl });
}

Reach-Low :
    {n threads : ℕ} {a : List ℕ} {s : Machine}
    → 11 ≤ n
    → IsGrid n a
    → Reach n threads a s
    → Low n a s
Reach-Low {n} {a = a} big g here = start-Low n a g
Reach-Low big g (next r st) = Step-Low big (Reach-Low big g r) st

-- However the threads of `wtc_btthr` run, the rows from the twelfth on stay as they were read, since
-- the counter of rows starts every round at 10. The number of nodes is 11 or more and its square is
-- below 2 ^ 31.
pub bag_unchanged :
    {n threads : ℕ} {a : List ℕ} {s : Machine}
    → IsGrid n a
    → 11 ≤ n
    → Reach n threads a s
    → (i j : ℕ) → 11 ≤ i
    → i < n
    → j < n
    → entry n s.matrix i j ≡ entry n a i j
bag_unchanged g big r i j lo hi hj = (Reach-Low big g r).rows i j lo hi hj
