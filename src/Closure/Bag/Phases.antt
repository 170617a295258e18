-- ===== src/Closure/Bag/Phases.antt =====
-- The rounds of wtc_btthr.c, when the counter starts at the last row.
use os_design.Prelude.{
  ℕ, suc, ◌<◌, ◌≤◌, ◌≡◌, refl, sym, ◌∙◌, inl, inr, List, Option, some, true, ltb, ℕ_discrete,
  Bool-cases, arith,
}
use mathlib.Core.Logic.{ite}
use mathlib.Core.Path.{subst}
use native.Mathlib.Numerals.{add-one}
use os_design.Prelude.Int.{ℤ, pos, negsuc, ◌<ℤ◌}
use os_design.Closure.Grid.{IsGrid}
use os_design.Closure.Walks.{Edges}
use os_design.Closure.Threads.Phases.{Exact, Exact-Between}
use os_design.Closure.Bag.{
  Pc, test, at_kbarrier, looking, at_barrier, at_last, finished, MainPc, testing, setting, kwaiting,
  waiting, counting, last_waiting, joining, joined, Machine, goto, is_over, act, main_turn,
}
use os_design.Closure.Bag.Work.{Work, act-Work}

-- Where a thread may be between two rounds.
abbrev pub Resting : ℕ → ℕ → Pc → Type 0
Resting n k test = Unit
Resting n k at_kbarrier = k < n
Resting n k finished = k ≡ n
Resting n k p = ⊥

over_lt : (q : ℤ) (r : ℕ) → is_over q ≡ true → q <ℤ pos r
unfolding is_over
over_lt (pos q) r h = ground arith
over_lt (negsuc q) r h = ground arith

module _ (e : Edges) (n threads : ℕ) where
  pub record Matrix (k : ℕ) (m : List ℕ) (i : ℕ → Option ℕ) : Type 0 where
    pub grid : IsGrid n m
    pub exact : Exact e n k m
    pub inside : (t r : ℕ) → i t ≡ some r → r < n

  abbrev pub Rest : Machine → Type 0
  Rest s = Matrix s.k s.matrix s.i × ((t : ℕ) → t < threads → Resting n s.k (s.pc t))

  abbrev pub Held : ℕ → Machine → Type 0
  Held k s = Matrix k s.matrix s.i × ((t : ℕ) → t < threads → s.pc t ≡ at_last)

  abbrev pub Phase : MainPc → Machine → Type 0
  Phase testing s = Rest s × (s.k ≤ n)
  Phase setting s = Rest s × (s.k < n)
  Phase kwaiting s = Rest s × (s.k < n) × (s.queue ≡ pos 10)
  Phase waiting s = Work e n threads s
  Phase counting s = Held (suc s.k) s × (s.k < n)
  Phase last_waiting s = Held s.k s × (s.k ≤ n)
  Phase joining s = Rest s × (s.k ≡ n)
  Phase joined s = Rest s × (s.k ≡ n)

  module _ (s : Machine) (t : ℕ) (runs : t < threads) where
    goto-Rest : (p : Pc) → Rest s → Resting n s.k p → Rest (goto s t p)
    goto-Rest p (m, pcs) good = (
      m,
      λ u lu. elim (ℕ_discrete t u) as (λ d. Resting n s.k (ite d p (s.pc u))) [
        | yes _ ↦ good
        | no _ ↦ pcs u lu
      ],
    )

    act-Rest :
        (p : Pc)
        → s.pc t ≡ p
        → Rest s
        → s.k ≤ n
        → Rest (act n t s p) × ((act n t s p).k ≡ s.k) × ((act n t s p).queue ≡ s.queue)
    unfolding act
    act-Rest test at r le = elim (Bool-cases (ltb s.k n)) [
      | inl more ↦ rw more (goto-Rest at_kbarrier r (ground arith), refl, refl)
      | inr over ↦ rw over (goto-Rest finished r (ground arith), refl, refl)
    ]
    act-Rest at_kbarrier at r le = (r, refl, refl)
    act-Rest finished at r le = (r, refl, refl)
    act-Rest at_barrier at r le = (r, refl, refl)
    act-Rest at_last at r le = (r, refl, refl)
    act-Rest p at r le = absurd (rw at at (r.1 t runs))

    act-Held :
        (k : ℕ) (p : Pc) → s.pc t ≡ p → Held k s → Held k (act n t s p) × ((act n t s p).k ≡ s.k)
    unfolding act
    act-Held k at_last at h = (h, refl)
    act-Held k p at h = absurd (let w = h.1 t runs in cc)

    pub act-Phase : (q : MainPc) → Phase q s → Phase q (act n t s (s.pc t))
    act-Phase waiting w = act-Work e n threads s w t runs (s.pc t) refl
    act-Phase testing (r, le) = let (a, b, c) = act-Rest (s.pc t) refl r le in (a, omega arith)
    act-Phase setting (r, lt) =
        let (a, b, c) = act-Rest (s.pc t) refl r (omega arith) in (a, omega arith)
    act-Phase kwaiting (r, lt, q) =
        let (a, b, c) = act-Rest (s.pc t) refl r (omega arith) in (a, omega arith, c ∙ q)
    act-Phase joining (r, over) =
        let (a, b, c) = act-Rest (s.pc t) refl r (omega arith) in (a, omega arith)
    act-Phase joined (r, over) =
        let (a, b, c) = act-Rest (s.pc t) refl r (omega arith) in (a, omega arith)
    act-Phase counting (h, lt) =
        let (a, b) = act-Held (suc s.k) (s.pc t) refl h in
        (subst (λ x. Held (suc x) (act n t s (s.pc t))) (sym b) a, omega arith)
    act-Phase last_waiting (h, le) =
        let (a, b) = act-Held s.k (s.pc t) refl h in
        (subst (λ x. Held x (act n t s (s.pc t))) (sym b) a, omega arith)

  -- What `wtc_btthr` does by itself.
  pub main_turn-Phase :
      (q : MainPc) (s : Machine)
      → n ≡ 11
      → Phase q s
      → s.main ≡ q
      → Phase (main_turn n q s).main (main_turn n q s)
  unfolding main_turn
  main_turn-Phase testing s eleven (r, le) at = elim (Bool-cases (ltb s.k n)) [
    | inl more ↦ rw more (r, ground arith)
    | inr over ↦ rw over (r, ground arith)
  ]
  main_turn-Phase setting s eleven (r, lt) at = (r, lt, refl)
  main_turn-Phase counting s eleven (h, lt) at =
      (subst (λ x. Held x s) (sym (add-one s.k)) h, omega arith)
  main_turn-Phase q s eleven p at = subst (λ x. Phase x s) (sym at) p

  -- The barriers.
  pub opens :
      (s : Machine)
      → n ≡ 11
      → Phase kwaiting s
      → Phase waiting (record s { main = waiting; pc = λ _. looking })
  opens s eleven ((m, pcs), lt, q) = record {
    below = lt;
    grid = m.grid;
    between = Exact-Between e n s.k s.matrix m.exact;
    inside = m.inside;
    ok = λ t lt'. tt;
    low = rw q (omega (arith, eleven));
    handed = λ r hr h. absurd (omega (arith, rw q at h, hr, eleven));
  }

  all_done :
      (s : Machine)
      → 1 ≤ threads
      → Work e n threads s
      → ((t : ℕ) → t < threads → s.pc t ≡ at_barrier)
      → Exact e n (suc s.k) s.matrix
  all_done s child w all i j hi hj =
      let o : is_over s.queue ≡ true = rw (all 0 (omega arith)) at (w.ok 0 (omega arith)) in
      elim (w.handed i hi (over_lt s.queue i o)) [
        | inl d ↦ ground (arith, d j hj, w.between.upper i j hi hj)
        | inr (t, lt, has) ↦ absurd (rw (all t lt) at has)
      ]

  pub closes :
      (s : Machine)
      → 1 ≤ threads
      → Phase waiting s
      → ((t : ℕ) → t < threads → s.pc t ≡ at_barrier)
      → Phase counting (record s { main = counting; pc = λ _. at_last })
  closes s child w all = (
    (record { grid = w.grid; exact = all_done s child w all; inside = w.inside }, λ t lt. refl),
    w.below,
  )
