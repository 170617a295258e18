-- ===== src/Closure/Bag/Work.antt =====
-- A round of wtc_btthr.c, from one barrier to the next: the rows that were taken from the counter
-- are done, or a thread has them.
use os_design.Prelude.{
  ℕ, ◌+◌, ◌<◌, ◌≤◌, ◌≡◌, ◌≢◌, refl, ap, sym, ◌∙◌, ◌⊎◌, inl, inr, List, Option, none, some, true,
  false, ltb, if◌then◌else◌, ℕ_discrete, Bool-cases, arith,
}
use mathlib.Core.Logic.{ite}
use os_design.Prelude.Int.{ℤ, pos, negsuc, ◌-ℤ◌, pos_part, ◌<ℤ◌}
use os_design.Closure.Grid.{entry, IsGrid, get-entry}
use os_design.Closure.Walks.{Edges, via, Between, Between-column}
use os_design.Closure.Threads.{relax}
use os_design.Closure.Threads.Writes.{Follows, Follows-refl, relax-Follows}
use os_design.Closure.Threads.Invariant.{RowDone, RowDone-keeps, RowDone-relax}
use os_design.Closure.Bag.{
  Pc, test, at_kbarrier, looking, locked, reading, col, at_barrier, at_last, finished, lost,
  Machine, update, goto, is_over, take_row, read_row, act,
}

update_self {ℓ} : {A : Type ℓ} (f : ℕ → A) (t : ℕ) (a : A) → update f t a t ≡ a
update_self f t a = ground arith

update_other {ℓ} : {A : Type ℓ} (f : ℕ → A) (t u : ℕ) (a : A) → t ≢ u → update f t a u ≡ f u
update_other f t u a h = ground arith

lower_row : (n : ℕ) (q : ℤ) → pos_part q < n → pos_part (q -ℤ pos 1) < n
unfolding ◌-ℤ◌
lower_row n (pos q) lt = ground arith
lower_row n (negsuc q) lt = ground arith

next_row : (q : ℤ) (r : ℕ) → (q -ℤ pos 1) <ℤ pos r → (q <ℤ pos r) ⊎ (pos_part q ≡ r)
unfolding ◌-ℤ◌
next_row (pos q) r h = elim (ℕ_discrete q r) [ yes same ↦ inr same | no other ↦ inl (ground arith) ]
next_row (negsuc q) r h = inl (omega arith)

-- The thread has row `r`, and has not gone over it.
abbrev pub HasRow : Pc → Option ℕ → ℕ → Type 0
HasRow reading i r = i ≡ some r
HasRow (col x ik j) i r = x ≡ r
HasRow p i r = ⊥

module _ (e : Edges) (n threads : ℕ) where
  abbrev pub PcOk : ℕ → List ℕ → ℤ → Pc → Type 0
  PcOk k m queue (col r ik j) =
      (r < n) × (j ≤ n) × (ik ≡ (if via e k r k then 1 else 0)) × RowDone e n m k r j
  PcOk k m queue at_barrier = is_over queue ≡ true
  PcOk k m queue test = ⊥
  PcOk k m queue at_kbarrier = ⊥
  PcOk k m queue at_last = ⊥
  PcOk k m queue finished = ⊥
  PcOk k m queue p = Unit

  abbrev pub Placed : Machine → ℕ → Type 0
  Placed s r = RowDone e n s.matrix s.k r n ⊎ ((t : ℕ) × (t < threads) × HasRow (s.pc t) (s.i t) r)

  pub record Work (s : Machine) : Type 0 where
    pub below : s.k < n
    pub grid : IsGrid n s.matrix
    pub between : Between e n s.k (entry n s.matrix)
    pub inside : (t r : ℕ) → s.i t ≡ some r → r < n
    pub ok : (t : ℕ) → t < threads → PcOk s.k s.matrix s.queue (s.pc t)
    pub low : pos_part s.queue < n
    pub handed : (r : ℕ) → r < n → s.queue <ℤ pos r → Placed s r

  -- Another thread's part outlasts a write.
  PcOk-keeps :
      (k : ℕ) (m m' : List ℕ) (q q' : ℤ)
      → Follows e n k m m'
      → (is_over q ≡ true → is_over q' ≡ true)
      → (p : Pc) → PcOk k m q p
      → PcOk k m' q' p
  PcOk-keeps k m m' q q' f over (col r ik j) (hr, hj, read, d) =
      (hr, hj, read, RowDone-keeps e n k m m' r j f hr hj d)
  PcOk-keeps k m m' q q' f over at_barrier h = over h
  PcOk-keeps k m m' q q' f over p h = h

  module _ (s : Machine) (w : Work s) (t : ℕ) (runs : t < threads) (m' : List ℕ) (q' : ℤ) (p : Pc)
      (i' : ℕ → Option ℕ) (follows : Follows e n s.k s.matrix m')
      (keeps : (r : ℕ) → HasRow (s.pc t) (s.i t) r → RowDone e n m' s.k r n ⊎ HasRow p (i' t) r)
      (others : (u : ℕ) → t ≢ u → i' u ≡ s.i u) where
    abbrev after : Machine
    after = record s { matrix = m'; queue = q'; pc = update s.pc t p; i = i' }

    new_row : (r : ℕ) → HasRow p (i' t) r → Placed after r
    new_row r has = inr (t, runs, rw (update_self s.pc t p) has)

    old_row : (r : ℕ) → r < n → Placed s r → Placed after r
    old_row r hr (inl d) = inl (RowDone-keeps e n s.k s.matrix m' r n follows hr (omega arith) d)
    old_row r hr (inr (u, lu, has)) = elim (ℕ_discrete t u) [
      | yes same ↦ elim (keeps r (rw same has)) [ inl d ↦ inl d | inr h ↦ new_row r h ]
      | no other ↦ inr (u, lu, rw (update_other s.pc t u p other, others u other) has)
    ]

    -- The thread goes on, drops no row that is not done, and has what it takes from the counter.
    step-Work :
        PcOk s.k m' q' p
        → (is_over s.queue ≡ true → is_over q' ≡ true)
        → pos_part q' < n
        → ((r : ℕ) → i' t ≡ some r → r < n)
        → ((r : ℕ) → q' <ℤ pos r → (s.queue <ℤ pos r) ⊎ HasRow p (i' t) r)
        → Work after
    step-Work good over low inside new = record {
      below = w.below;
      grid = follows.grid;
      between = follows.between;
      inside = λ u r h. elim (ℕ_discrete t u) [
        | yes same ↦ inside r (rw same h)
        | no other ↦ w.inside u r (rw (others u other) at h)
      ];
      ok = λ u lu. elim (ℕ_discrete t u) as (λ d. PcOk s.k m' q' (ite d p (s.pc u))) [
        | yes _ ↦ good
        | no _ ↦ PcOk-keeps s.k s.matrix m' s.queue q' follows over (s.pc u) (w.ok u lu)
      ];
      low = low;
      handed = λ r hr h. elim (new r h) [
        | inl old ↦ old_row r hr (w.handed r hr old)
        | inr has ↦ new_row r has
      ];
    }

  module _ (s : Machine) (w : Work s) (t : ℕ) (runs : t < threads) where
    same : Follows e n s.k s.matrix s.matrix
    same = Follows-refl e n s.k s.matrix w.grid w.between

    -- A step that only goes from one place to another.
    goto-Work :
        (p : Pc)
        → PcOk s.k s.matrix s.queue p
        → ((r : ℕ) → HasRow (s.pc t) (s.i t) r → RowDone e n s.matrix s.k r n ⊎ HasRow p (s.i t) r)
        → Work (goto s t p)
    goto-Work p good keeps =
        step-Work s w t runs s.matrix s.queue p s.i same keeps (λ u o. refl) good (λ o. o) w.low
          (w.inside t) (λ r h. inl h)

    -- No row is dropped by a thread that has none.
    free :
        (q p : Pc)
        → s.pc t ≡ q
        → ((r : ℕ) → HasRow q (s.i t) r → ⊥)
        → (r : ℕ) → HasRow (s.pc t) (s.i t) r
        → RowDone e n s.matrix s.k r n ⊎ HasRow p (s.i t) r
    free q p at none_held r has = absurd (none_held r (rw at at has))

    read_row-Work : s.pc t ≡ reading → (o : Option ℕ) → s.i t ≡ o → Work (read_row n t s o)
    unfolding read_row
    read_row-Work at none e' =
        goto-Work lost tt (λ r has. let h : s.i t ≡ some r = rw at at has in absurd cc)
    read_row-Work at (some x) e' =
        goto-Work (col x _ 0)
          (
            w.inside t x e',
            omega arith,
            ground (
              arith,
              get-entry n s.matrix x s.k,
              Between-column e w.between w.below x (w.inside t x e'),
            ),
            λ j hj v. absurd (omega arith),
          )
          (λ r has. let h : s.i t ≡ some r = rw at at has in inr cc)

    cons_row : (r : ℕ) → update s.i t (some (pos_part s.queue)) t ≡ some r → pos_part s.queue ≡ r
    cons_row r h =
        let e' : some (pos_part s.queue) ≡ some r =
          sym (update_self s.i t (some (pos_part s.queue))) ∙ h in
        cc

    -- A row of which all columns were visited is done.
    whole :
        (i ik j : ℕ)
        → PcOk s.k s.matrix s.queue (col i ik j)
        → ltb j n ≡ false
        → (r : ℕ) → i ≡ r
        → RowDone e n s.matrix s.k r n
    whole i ik j (hi, hj, read, d) over r e' = rw (← e') (λ y hy v. d y (ground arith) v)

    col-Work :
        (i ik j : ℕ)
        → s.pc t ≡ col i ik j
        → PcOk s.k s.matrix s.queue (col i ik j)
        → Work (act n t s (col i ik j))
    unfolding act
    col-Work i ik j at good = elim (Bool-cases (ltb j n)) [
      | inl more ↦
          let lt : j < n = ground arith in
          rw more (
            step-Work s w t runs (relax n s.k i ik j s.matrix) s.queue (col i ik (j + 1)) s.i
              (relax-Follows e n s.k i ik j s.matrix w.grid w.between w.below good.0 lt good.2)
              (λ r has. inr (rw at at has)) (λ u o. refl)
              (
                good.0,
                omega arith,
                good.2,
                RowDone-relax e n s.k 0 0 s.matrix w.grid w.between (omega arith) (omega arith) i ik
                    j w.below good.0 lt good.2 good.3,
              )
              (λ o. o) w.low (w.inside t) (λ r h. inl h))
      | inr over ↦
          rw over (goto-Work looking tt (λ r has. inl (whole i ik j good over r (rw at at has))))
    ]

    take-Work : s.pc t ≡ locked → Work (goto (take_row t s) t reading)
    unfolding take_row
    take-Work at = elim (Bool-cases (is_over s.queue)) [
      | inl over ↦ rw over (goto-Work reading tt (free locked reading at (λ r h. h)))
      | inr more ↦ rw more (
          step-Work s w t runs s.matrix (s.queue -ℤ pos 1) reading
            (update s.i t (some (pos_part s.queue))) same (λ r has. absurd (rw at at has))
            (λ u o. update_other s.i t u (some (pos_part s.queue)) o) tt (λ o. absurd cc)
            (lower_row n s.queue w.low)
            (λ r h. let e' : pos_part s.queue ≡ r = cons_row r h in omega (arith, w.low))
            (λ r h. elim (next_row s.queue r h) [
              | inl old ↦ inl old
              | inr e' ↦ inr (update_self s.i t (some (pos_part s.queue)) ∙ ap some e')
            ]))
    ]

    pub act-Work : (p : Pc) → s.pc t ≡ p → Work (act n t s p)
    unfolding act
    act-Work looking at = elim (Bool-cases (is_over s.queue)) [
      | inl over ↦ rw over (goto-Work at_barrier over (free looking at_barrier at (λ r h. h)))
      | inr more ↦ rw more (goto-Work locked tt (free looking locked at (λ r h. h)))
    ]
    act-Work locked at = take-Work at
    act-Work reading at = read_row-Work at (s.i t) refl
    act-Work (col i ik j) at = col-Work i ik j at (rw at at (w.ok t runs))
    act-Work at_barrier at = w
    act-Work lost at = w
    act-Work test at = absurd (rw at at (w.ok t runs))
    act-Work at_kbarrier at = absurd (rw at at (w.ok t runs))
    act-Work at_last at = absurd (rw at at (w.ok t runs))
    act-Work finished at = absurd (rw at at (w.ok t runs))
