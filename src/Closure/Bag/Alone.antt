-- ===== src/Closure/Bag/Alone.antt =====
-- A run of wtc_btthr.c with one thread, to its end.
use os_design.Prelude.{
  ℕ, zero, suc, ◌+◌, ◌<◌, ◌≡◌, refl, ap, List, some, true, false, ltb, ℕ_discrete, arith,
}
use mathlib.Core.Path.{subst}
use os_design.Prelude.Int.{ℤ, pos, negsuc, ◌-ℤ◌, pos_part}
use os_design.Closure.BitArray.{bit_array_get}
use os_design.Closure.Grid.{cell}
use os_design.Closure.Threads.{relax}
use os_design.Closure.Bag.{
  Pc, test, at_kbarrier, looking, locked, reading, col, at_barrier, at_last, finished, MainPc,
  testing, setting, kwaiting, waiting, counting, last_waiting, joining, joined, Machine, update,
  goto, is_over, take_row, read_row, act, main_turn, thread, main, kbarrier, barrier, last, join,
  Reach, here, next,
}

module _ (n : ℕ) (a : List ℕ) where
  -- A state that one thread and `wtc_btthr` reach, as far as a schedule has to know it.
  record At (p : Pc) (q : MainPc) (k : ℕ) (queue : ℤ) : Type 0 where
    state : Machine
    reach : Reach n 1 a state
    place : state.pc 0 ≡ p
    main : state.main ≡ q
    round : state.k ≡ k
    counter : state.queue ≡ queue

  -- A turn of the thread, of which the new state is known.
  turned :
      {p p' : Pc} {q : MainPc} {k : ℕ} {c c' : ℤ} (h : At p q k c) (u : Machine)
      → act n 0 h.state p ≡ u
      → u.pc 0 ≡ p'
      → u.main ≡ q
      → u.k ≡ k
      → u.queue ≡ c'
      → At p' q k c'
  turned {p} h u e place stays round counter = record {
    state = u;
    reach = rw (← e) (rw (← h.place) (next h.reach (thread 0 (omega arith))));
    place = place;
    main = stays;
    round = round;
    counter = counter;
  }

  -- A turn of `wtc_btthr`.
  ruled :
      {p : Pc} {q q' : MainPc} {k k' : ℕ} {c c' : ℤ} (h : At p q k c) (u : Machine)
      → main_turn n q h.state ≡ u
      → u.pc 0 ≡ p
      → u.main ≡ q'
      → u.k ≡ k'
      → u.queue ≡ c'
      → At p q' k' c'
  ruled {q = q} h u e place stays round counter = record {
    state = u;
    reach = rw (← e) (rw (← h.main) (next h.reach main));
    place = place;
    main = stays;
    round = round;
    counter = counter;
  }

  alone : {p : Pc} {q : MainPc} {k : ℕ} {c : ℤ} (h : At p q k c) (t : ℕ) → t < 1 → h.state.pc t ≡ p
  alone h zero lt = h.place
  alone h (suc t) lt = absurd (omega arith)

  -- The barriers.
  past_kbarrier : {k : ℕ} {c : ℤ} → At at_kbarrier kwaiting k c → At looking waiting k c
  past_kbarrier h = record {
    state = record h.state { main = waiting; pc = λ _. looking };
    reach = next h.reach (kbarrier h.main (alone h));
    place = refl;
    main = refl;
    round = h.round;
    counter = h.counter;
  }

  past_barrier : {k : ℕ} {c : ℤ} → At at_barrier waiting k c → At at_last counting k c
  past_barrier h = record {
    state = record h.state { main = counting; pc = λ _. at_last };
    reach = next h.reach (barrier h.main (alone h));
    place = refl;
    main = refl;
    round = h.round;
    counter = h.counter;
  }

  past_last : {k : ℕ} {c : ℤ} → At at_last last_waiting k c → At test testing k c
  past_last h = record {
    state = record h.state { main = testing; pc = λ _. test };
    reach = next h.reach (last h.main (alone h));
    place = refl;
    main = refl;
    round = h.round;
    counter = h.counter;
  }

  row_run :
      {k : ℕ} {c : ℤ} (d i ik j : ℕ)
      → j + d ≡ n
      → At (col i ik j) waiting k c
      → At looking waiting k c
  unfolding ℕ_discrete act
  row_run zero i ik j e h =
      let over : ltb j n ≡ false = ground arith in
      turned h (goto h.state 0 looking) (rw over refl) refl h.main h.round h.counter
  row_run (suc d) i ik j e h =
      let more : ltb j n ≡ true = ground arith in
      row_run d i ik (j + 1) (omega arith) (
        turned h
          (goto (record h.state { matrix = relax n h.state.k i ik j h.state.matrix }) 0
            (col i ik (j + 1)))
          (rw more refl) refl h.main h.round h.counter)

  -- `if(queue != -1)` with a row left.
  lock_run : {k : ℕ} {c : ℤ} → is_over c ≡ false → At looking waiting k c → At locked waiting k c
  unfolding ℕ_discrete act
  lock_run more h =
      let open' : is_over h.state.queue ≡ false = rw h.counter more in
      turned h (goto h.state 0 locked) (rw open' refl) refl h.main h.round h.counter

  row_taken :
      {k : ℕ} {c c' : ℤ}
      → is_over c ≡ false
      → c -ℤ pos 1 ≡ c'
      → At locked waiting k c
      → At looking waiting k c'
  unfolding ℕ_discrete act take_row read_row turned
  row_taken {c = c} {c' = c'} more e lock =
      let open' : is_over lock.state.queue ≡ false = rw lock.counter more in
      let i = pos_part lock.state.queue in
      let taken : Machine =
        goto
          (record lock.state {
            queue = lock.state.queue -ℤ pos 1;
            i = update lock.state.i 0 (some i);
          })
          0 reading in
      let got =
        turned {p' = reading} {c' = c'} lock taken (rw open' refl) refl lock.main lock.round
          (rw lock.counter e) in
      row_run n i (bit_array_get taken.matrix (cell n i taken.k)) 0 (omega arith) (
        turned got (goto taken 0 (col i (bit_array_get taken.matrix (cell n i taken.k)) 0)) refl
          refl got.main got.round got.counter)

  rows_run : {k : ℕ} (c : ℕ) → At looking waiting k (pos c) → At looking waiting k (negsuc 0)
  unfolding is_over ◌-ℤ◌
  rows_run zero h = row_taken refl refl (lock_run refl h)
  rows_run (suc c) h =
      rows_run c (row_taken (ground arith) (ground arith) (lock_run (ground arith) h))

  over_run : {k : ℕ} {c : ℤ} → is_over c ≡ true → At looking waiting k c → At at_barrier waiting k c
  unfolding ℕ_discrete act
  over_run all h =
      let over : is_over h.state.queue ≡ true = rw h.counter all in
      turned h (goto h.state 0 at_barrier) (rw over refl) refl h.main h.round h.counter

  test_run : {k : ℕ} {c : ℤ} {q : MainPc} → k < n → At test q k c → At at_kbarrier q k c
  unfolding ℕ_discrete act
  test_run lt h =
      let more : ltb h.state.k n ≡ true = rw h.round (ground arith) in
      turned h (goto h.state 0 at_kbarrier) (rw more refl) refl h.main h.round h.counter

  set_run : {p : Pc} {k : ℕ} {c : ℤ} → k < n → At p testing k c → At p setting k c
  unfolding main_turn
  set_run lt h =
      let more : ltb h.state.k n ≡ true = rw h.round (ground arith) in
      ruled h (record h.state { main = setting }) (rw more refl) h.place refl h.round h.counter

  hold_run : {p : Pc} {k : ℕ} {c : ℤ} → At p setting k c → At p kwaiting k (pos 10)
  unfolding main_turn
  hold_run h =
      ruled h (record h.state { queue = pos 10; main = kwaiting }) refl h.place refl h.round refl

  count_run : {p : Pc} {k : ℕ} {c : ℤ} → At p counting k c → At p last_waiting (k + 1) c
  unfolding main_turn
  count_run h =
      ruled h (record h.state { k = h.state.k + 1; main = last_waiting }) refl h.place refl
        (ap (λ (x : ℕ). x + 1) h.round) h.counter

  -- A round, from one test of `wtc_btthr` to the next.
  round_run : {k : ℕ} {c : ℤ} → k < n → At test testing k c → At test testing (k + 1) (negsuc 0)
  unfolding is_over
  round_run lt h =
      let rows = rows_run 10 (past_kbarrier (test_run lt (hold_run (set_run lt h)))) in
      past_last (count_run (past_barrier (over_run refl rows)))

  -- From round `k` on, when `d` rounds are left.
  rounds_run :
      (d : ℕ) {k : ℕ} {c : ℤ} → k + d ≡ n → At test testing k c → (c' : ℤ) × At test testing n c'
  rounds_run zero {k} {c} e h =
      let same : k ≡ n = omega arith in (c, subst (λ x. At test testing x c) same h)
  rounds_run (suc d) {k} e h = rounds_run d (omega arith) (round_run (omega arith) h)

  join_run : {p : Pc} {c : ℤ} → At p testing n c → At p joining n c
  unfolding main_turn
  join_run h =
      let over : ltb h.state.k n ≡ false = rw h.round (ground arith) in
      ruled h (record h.state { main = joining }) (rw over refl) h.place refl h.round h.counter

  finish_run : {c : ℤ} → At test joining n c → At finished joining n c
  unfolding ℕ_discrete act
  finish_run h =
      let over : ltb h.state.k n ≡ false = rw h.round (ground arith) in
      turned h (goto h.state 0 finished) (rw over refl) refl h.main h.round h.counter

  -- One thread and `wtc_btthr` can come to the end, for any number of nodes.
  pub bag_ends : (s : Machine) × Reach n 1 a s × (s.main ≡ joined)
  bag_ends =
      let from : At test testing 0 (pos n) = record {
        state = _;
        reach = here;
        place = refl;
        main = refl;
        round = refl;
        counter = refl;
      } in
      let h = finish_run (join_run (rounds_run n (omega arith) from).1) in
      (record h.state { main = joined }, next h.reach (join h.main (alone h)), refl)
