-- ===== src/Closure/Threads/Schedule.antt =====
-- Runs of wtc_thr.c by evaluation: the threads and `wtc_thr` take turns in a given order.
use os_design.Prelude.{
  ℕ, zero, suc, ◌<◌, ◌≡◌, List, [], ◌∷◌, Option, none, some, dec_lt, ℕ_discrete, arith, refl,
}
use mathlib.Core.List.{foldl}
use os_design.Closure.BitArray.{bit_array_get, bit_array_set}
use os_design.Closure.Threads.{
  Pc, at_barrier, at_kbarrier, finished, MainPc, waiting, kwaiting, joining, Machine, turn,
  main_turn, next_pc, next_matrix, relax, Step, thread, main, barrier, kbarrier, join, start, Reach,
  here, next,
}

Pc-discrete : Discrete Pc
Pc-discrete = hlevel ℕ_discrete

all_at : (p : Pc) (pc : ℕ → Pc) (ts : ℕ) → Option ((t : ℕ) → t < ts → pc t ≡ p)
unfolding Pc-discrete ℕ_discrete
all_at p pc zero = some (λ t h. absurd (omega arith))
all_at p pc (suc ts) = elim (all_at p pc ts) [
  | none ↦ none
  | some below ↦ elim (Pc-discrete (pc ts) p) [
    | no _ ↦ none
    | yes last ↦ some (λ t h. elim (ℕ_discrete t ts) [
      | yes same ↦ rw same last
      | no other ↦ below t (omega arith)
    ])
  ]
]

pub record Run (n threads : ℕ) (a : List ℕ) : Type 0 where
  pub last : Machine
  pub reach : Reach n threads a last

module _ {n threads : ℕ} {a : List ℕ} where
  extend : (r : Run n threads a) {u : Machine} → Step n threads r.last u → Run n threads a
  extend r st = record { last = _; reach = next r.reach st }

  thread_turn : Run n threads a → ℕ → Run n threads a
  unfolding extend dec_lt
  thread_turn r t = elim (dec_lt t threads) [ yes lt ↦ extend r (thread t lt) | no _ ↦ r ]

  -- `wtc_thr` takes a turn, or what it waits for happens, if all the threads have come.
  gate : (r : Run n threads a) (p : MainPc) → r.last.main ≡ p → Run n threads a
  unfolding extend all_at
  gate r waiting e = elim (all_at at_barrier r.last.pc threads) [
    | some all ↦ extend r (barrier e all)
    | none ↦ r
  ]
  gate r kwaiting e = elim (all_at at_kbarrier r.last.pc threads) [
    | some all ↦ extend r (kbarrier e all)
    | none ↦ r
  ]
  gate r joining e = elim (all_at finished r.last.pc threads) [
    | some all ↦ extend r (join e all)
    | none ↦ r
  ]
  gate r p e = extend r main

  -- The number of a thread, or any other number for `wtc_thr`.
  choose : Run n threads a → ℕ → Run n threads a
  unfolding thread_turn gate dec_lt
  choose r t = elim (dec_lt t threads) [ yes lt ↦ thread_turn r t | no _ ↦ gate r r.last.main refl ]

-- `rounds` times: every thread once, from the last to the first, between two turns of `wtc_thr`.
unfoldable pub run : (n threads : ℕ) (a : List ℕ) → ℕ → Run n threads a
unfolding choose turn main_turn next_pc next_matrix relax bit_array_get bit_array_set
run n threads a zero = record { last = start a; reach = here }
run n threads a (suc rounds) =
    choose (foldl choose (run n threads a rounds) (countdown threads)) threads
  where
    countdown : ℕ → List ℕ
    countdown zero = []
    countdown (suc t) = t ∷ countdown t
