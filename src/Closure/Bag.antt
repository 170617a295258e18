-- ===== src/Closure/Bag.antt =====
-- Project_1/Stuff/wtc_btthr.c: threads take the rows of the matrix from a counter, which counts down
-- to -1, and the rounds are kept apart by two barriers of which the second is waited for twice. Any
-- thread may be scheduled at any moment, and the test `queue != -1` of the loop is made without the
-- lock. A thread that reads its variable `i` before it took a row is lost: C says nothing of it.
pub mod Low
pub mod Work
pub mod Phases
pub mod Joined
pub mod Laws
pub mod Alone
mod Tests
use os_design.Prelude.{
  ℕ, suc, ◌+◌, ◌<◌, ◌≡◌, List, Option, none, some, Bool, true, false, ltb, if◌then◌else◌,
  ℕ_discrete,
}
use os_design.Prelude.Int.{ℤ, pos, negsuc, ◌-ℤ◌, eq_ℤ, pos_part}
use mathlib.Core.Logic.{ite}
use os_design.Closure.BitArray.{bit_array_get}
use os_design.Closure.Grid.{cell}
use os_design.Closure.Threads.{relax}

-- Where a thread stands in `transitive_closure_thread_worker`.
pub data Pc : Type 0 where
  test : Pc  -- `while(k < number_of_nodes)`
  at_kbarrier : Pc  -- the first wait
  looking : Pc  -- `while(queue != -1)`
  locked : Pc  -- between the lock and the unlock of `mutexqueue`
  reading : Pc  -- `ik = bit_array_get(...)`
  col : (i ik j : ℕ) → Pc  -- `j < number_of_nodes`
  at_barrier : Pc
  at_last : Pc  -- the second wait for `kbarrier`
  finished : Pc
  lost : Pc

-- Where `wtc_btthr` stands, from its loop on.
pub data MainPc : Type 0 where
  testing : MainPc  -- `k < number_of_nodes`
  setting : MainPc  -- `queue = 10`
  kwaiting : MainPc
  waiting : MainPc
  counting : MainPc  -- `++k`
  last_waiting : MainPc
  joining : MainPc
  joined : MainPc

pub record Machine : Type 0 where
  pub matrix : List ℕ
  pub k : ℕ
  pub queue : ℤ
  pub main : MainPc
  pub pc : ℕ → Pc
  pub i : ℕ → Option ℕ

abbrev pub update {ℓ} : {A : Type ℓ} → (ℕ → A) → ℕ → A → ℕ → A
update f t a u = ite (ℕ_discrete t u) a (f u)

abbrev pub goto : Machine → ℕ → Pc → Machine
goto s t p = record s { pc = update s.pc t p }

unfoldable pub is_over : ℤ → Bool
is_over queue = eq_ℤ queue (negsuc 0)

-- `if(queue != -1) { i = queue; queue--; }`.
pub take_row : ℕ → Machine → Machine
unfolding is_over
take_row t s =
    if is_over s.queue
    then s
    else record s { queue = s.queue -ℤ pos 1; i = update s.i t (some (pos_part s.queue)) }

pub read_row : ℕ → ℕ → Machine → Option ℕ → Machine
read_row n t s none = goto s t lost
read_row n t s (some i) = goto s t (col i (bit_array_get s.matrix (cell n i s.k)) 0)

-- What thread `t` does from where it stands. At a barrier it stays.
pub act : ℕ → ℕ → Machine → Pc → Machine
unfolding take_row read_row is_over
act n t s test = goto s t (if ltb s.k n then at_kbarrier else finished)
act n t s looking = goto s t (if is_over s.queue then at_barrier else locked)
act n t s locked = goto (take_row t s) t reading
act n t s reading = read_row n t s (s.i t)
act n t s (col i ik j) =
    if ltb j n
    then goto (record s { matrix = relax n s.k i ik j s.matrix }) t (col i ik (j + 1))
    else goto s t looking
act n t s p = s

pub main_turn : ℕ → MainPc → Machine → Machine
main_turn n testing s = record s { main = if ltb s.k n then setting else joining }
main_turn n setting s = record s { queue = pos 10; main = kwaiting }
main_turn n counting s = record s { k = s.k + 1; main = last_waiting }
main_turn n p s = s

-- The barriers are for `number_of_threads+1`: they open when all threads and `wtc_btthr` wait.
pub data Step (n threads : ℕ) (s : Machine) : Machine → Type 0 where
  thread : (t : ℕ) → t < threads → Step n threads s (act n t s (s.pc t))
  main : Step n threads s (main_turn n s.main s)
  kbarrier :
      s.main ≡ kwaiting
      → ((t : ℕ) → t < threads → s.pc t ≡ at_kbarrier)
      → Step n threads s (record s { main = waiting; pc = λ _. looking })
  barrier :
      s.main ≡ waiting
      → ((t : ℕ) → t < threads → s.pc t ≡ at_barrier)
      → Step n threads s (record s { main = counting; pc = λ _. at_last })
  last :
      s.main ≡ last_waiting
      → ((t : ℕ) → t < threads → s.pc t ≡ at_last)
      → Step n threads s (record s { main = testing; pc = λ _. test })
  join :
      s.main ≡ joining
      → ((t : ℕ) → t < threads → s.pc t ≡ finished)
      → Step n threads s (record s { main = joined })

-- After `queue = number_of_nodes`, with the threads created.
abbrev pub start : ℕ → List ℕ → Machine
start n matrix = record {
  matrix = matrix;
  k = 0;
  queue = pos n;
  main = testing;
  pc = λ _. test;
  i = λ _. none;
}

pub data Reach (n threads : ℕ) (matrix : List ℕ) : Machine → Type 0 where
  here : Reach n threads matrix (start n matrix)
  next : {s u : Machine} → Reach n threads matrix s → Step n threads s u → Reach n threads matrix u
