-- ===== src/Closure/Threads/Laws.antt =====
-- What wtc_thr.c computes, over every schedule of its threads.
use os_design.Prelude.{
  ℕ, zero, suc, ◌*◌, ◌/◌, ◌<◌, ◌≡◌, ◌≢◌, ◌⊎◌, refl, List, true, arith, ℕ_discrete, inl, inr, ◌↔◌,
}
use mathlib.Core.Path.{subst}
use os_design.Closure.Grid.{entry, IsGrid}
use os_design.Closure.Walks.{Edges, Walk, via, via-Walk_iff}
use os_design.Closure.Threads.{
  Pc, at_barrier, at_kbarrier, finished, MainPc, testing, waiting, counting, kwaiting, joining,
  joined, Machine, first_row, end_row, Reach,
}
use os_design.Closure.Threads.Invariant.{Progress, waits, ends}
use os_design.Closure.Threads.Phases.{Phase, Reach-Phase}

pub joined-via :
    {n threads : ℕ} {a : List ℕ} {s : Machine}
    → IsGrid n a
    → threads * (n / threads) ≡ n
    → Reach n threads a s
    → s.main ≡ joined
    → (i j : ℕ) → i < n
    → j < n
    → entry n s.matrix i j ≡ via (entry n a) n i j
joined-via {n} {threads} {a} {s} g even r done i j hi hj =
    let h : Phase (entry n a) n threads joined s =
      subst (λ q. Phase (entry n a) n threads q s) done
        (Reach-Phase (entry n a) n threads even g (λ x y. refl) r) in
    h.0.exact h.1 i j hi hj

-- When `wtc_thr` has joined its threads, in whatever order they ran, an entry of the matrix is set
-- exactly when the graph that was read has a path from the row's node to the column's. The number
-- of nodes is a multiple of the number of threads, and its square is below 2 ^ 31.
pub joined-iff-Walk :
    {n threads : ℕ} {a : List ℕ} {s : Machine}
    → IsGrid n a
    → threads * (n / threads) ≡ n
    → Reach n threads a s
    → s.main ≡ joined
    → (i j : ℕ) → i < n
    → j < n
    → (entry n s.matrix i j ≡ true) ↔ Walk n (entry n a) i j
joined-iff-Walk {n} {threads} {a} {s} g even r done i j hi hj =
    rw (joined-via g even r done i j hi hj) (via-Walk_iff (entry n a) n i j)

-- What a step of the machine can be, other than a turn of somebody who waits.
pub data CanMove (n threads : ℕ) (s : Machine) : Type 0 where
  by_thread :
      (t : ℕ)
      → t < threads
      → s.pc t ≢ at_barrier
      → s.pc t ≢ at_kbarrier
      → s.pc t ≢ finished
      → CanMove n threads s
  by_main : (s.main ≡ testing) ⊎ (s.main ≡ counting) → CanMove n threads s
  by_barrier :
      s.main ≡ waiting → ((t : ℕ) → t < threads → s.pc t ≡ at_barrier) → CanMove n threads s
  by_kbarrier :
      s.main ≡ kwaiting → ((t : ℕ) → t < threads → s.pc t ≡ at_kbarrier) → CanMove n threads s
  by_join : s.main ≡ joining → ((t : ℕ) → t < threads → s.pc t ≡ finished) → CanMove n threads s

abbrev Waits : (ℕ → Pc) → ℕ → Type 0
Waits pc t = (pc t ≡ at_barrier) ⊎ ((pc t ≡ at_kbarrier) ⊎ (pc t ≡ finished))

-- Some thread can go on, or all of them wait.
find_running :
    (pc : ℕ → Pc) (ts : ℕ)
    → ((t : ℕ) × (t < ts) × (pc t ≢ at_barrier) × (pc t ≢ at_kbarrier) × (pc t ≢ finished))
      ⊎ ((t : ℕ) → t < ts → Waits pc t)
find_running pc zero = inr (λ t h. absurd (omega arith))
find_running pc (suc ts) = elim (find_running pc ts) [
  | inl (t, lt, a, b, c) ↦ inl (t, omega arith, a, b, c)
  | inr all ↦ elim (runs (pc ts)) [
    | inl (a, b, c) ↦ inl (ts, omega arith, a, b, c)
    | inr w ↦
        inr
          (λ t h. elim (ℕ_discrete t ts) [ yes same ↦ rw same w | no other ↦ all t (omega arith) ])
  ]
]
  where
    runs :
        (p : Pc)
        → ((p ≢ at_barrier) × (p ≢ at_kbarrier) × (p ≢ finished))
          ⊎ ((p ≡ at_barrier) ⊎ ((p ≡ at_kbarrier) ⊎ (p ≡ finished)))
    runs at_barrier = inr (inl refl)
    runs at_kbarrier = inr (inr (inl refl))
    runs finished = inr (inr (inr refl))
    runs p = inl (λ e. cc, λ e. cc, λ e. cc)

module _ (e : Edges) (n threads : ℕ) (s : Machine) where
  abbrev Runner : ℕ → Pc → Type 0
  Runner t = Progress e n s.k (first_row (n / threads) t) (end_row (n / threads) t) s.matrix

  waits_in_round :
      (t : ℕ) {p : Pc}
      → Runner t p
      → s.k < n
      → (p ≡ at_barrier) ⊎ ((p ≡ at_kbarrier) ⊎ (p ≡ finished))
      → p ≡ at_barrier
  waits_in_round t (waits _ _) lt w = refl
  waits_in_round t (ends over) lt w = absurd (omega arith)
  waits_in_round t q lt (inl w) = w
  waits_in_round t q lt (inr (inl w)) = cc
  waits_in_round t q lt (inr (inr w)) = cc

  waits_after :
      (t : ℕ) {p : Pc}
      → Runner t p
      → s.k ≡ n
      → (p ≡ at_barrier) ⊎ ((p ≡ at_kbarrier) ⊎ (p ≡ finished))
      → p ≡ finished
  waits_after t (waits lt _) over w = absurd (omega arith)
  waits_after t (ends _) over w = refl
  waits_after t q over (inl w) = cc
  waits_after t q over (inr (inl w)) = cc
  waits_after t q over (inr (inr w)) = w

  Phase-CanMove :
      (p : MainPc) → s.main ≡ p → Phase e n threads p s → p ≢ joined → CanMove n threads s
  Phase-CanMove testing at h open' = by_main (inl at)
  Phase-CanMove counting at h open' = by_main (inr at)
  Phase-CanMove kwaiting at h open' = by_kbarrier at h.0.held
  Phase-CanMove waiting at h open' = elim (find_running s.pc threads) [
    | inl (t, lt, a, b, c) ↦ by_thread t lt a b c
    | inr all ↦ by_barrier at (λ t lt. waits_in_round t (h.0.progress t lt) h.1 (all t lt))
  ]
  Phase-CanMove joining at h open' = elim (find_running s.pc threads) [
    | inl (t, lt, a, b, c) ↦ by_thread t lt a b c
    | inr all ↦ by_join at (λ t lt. waits_after t (h.0.progress t lt) h.1 (all t lt))
  ]
  Phase-CanMove joined at h open' = absurd (open' refl)

-- There is no deadlock: until the threads are joined, a thread that does not wait can take a turn,
-- or `wtc_thr` can, or a barrier or the join has all that it waits for. The number of nodes is a
-- multiple of the number of threads.
pub no_deadlock :
    {n threads : ℕ} {a : List ℕ} {s : Machine}
    → IsGrid n a
    → threads * (n / threads) ≡ n
    → Reach n threads a s
    → s.main ≢ joined
    → CanMove n threads s
no_deadlock {n} {threads} {a} {s} g even r open' =
    Phase-CanMove (entry n a) n threads s s.main refl
      (Reach-Phase (entry n a) n threads even g (λ x y. refl) r) open'
