-- ===== src/Closure/Flip/Turns.antt =====
-- The turns of the flag, and where the children are in each.
use os_design.Prelude.{
  ℕ, suc, ◌+◌, ◌%◌, ◌<◌, ◌≤◌, ◌≡◌, ◌≢◌, refl, sym, ap, ◌∙◌, ◌==◌, ltb, if◌then◌else◌, ℕ_discrete,
  arith, inl, inr, ◌⊎◌, Bool-cases,
}
use os_design.Prelude.Sums.{total, total_change}
use mathlib.Core.Path.{subst}
use os_design.Closure.Flip.{
  Pc, working, waiting, leaving, gone, Child, ended, Shared, update, enter,
}

-- Where a child is in a turn of the flag. One that has not yet seen the flag of the turn is behind.
pub data InTurn (n turn : ℕ) : Pc → ℕ → Type 0 where
  at_work : turn < n → InTurn n turn working turn
  counted : turn < n → InTurn n turn waiting turn
  behind : {k : ℕ} → k < n → turn ≡ suc k → InTurn n turn waiting k
  through : turn ≡ n → InTurn n turn leaving turn
  away : turn ≡ n → InTurn n turn gone turn

-- Whether a child is counted by `bCount`, and whether `count` has lost it.
abbrev pub counts : ℕ → Pc → ℕ → ℕ
counts turn waiting k = if k == turn then 1 else 0
counts turn p k = 0

abbrev pub lost : Pc → ℕ
lost gone = 1
lost p = 0

abbrev pub arrived : ℕ → (ℕ → Child) → ℕ → ℕ
arrived turn f q = counts turn (f q).pc (f q).k

abbrev pub missing : (ℕ → Child) → ℕ → ℕ
missing f q = lost (f q).pc

pub record Turned (n threads turn : ℕ) (s : Shared) : Type 0 where
  pub cont : s.cont ≡ turn % 2
  pub other : s.next_flip ≡ (turn + 1) % 2
  pub counter : s.b_count ≡ total (arrived turn s.child) threads
  pub left : s.count + total (missing s.child) threads ≡ threads
  pub flags : (q : ℕ) → q < threads → (s.child q).next_flip ≡ ((s.child q).k + 1) % 2
  pub places : (q : ℕ) → q < threads → InTurn n turn (s.child q).pc (s.child q).k
  pub over : s.parent ≡ ended → s.count ≡ 0

pub update_self : (f : ℕ → Child) (q : ℕ) (c : Child) → update f q c q ≡ c
update_self f q c = ground arith

pub update_other : (f : ℕ → Child) (q u : ℕ) (c : Child) → q ≢ u → update f q c u ≡ f u
update_other f q u c ne = ground arith

module _ (n threads turn : ℕ) (s : Shared) (q : ℕ) (lt : q < threads) (c : Child) where
  -- The sums, after child `q` has changed.
  pub arrived_change :
      total (arrived turn (update s.child q c)) threads + arrived turn s.child q
      ≡ total (arrived turn s.child) threads + counts turn c.pc c.k
  arrived_change =
      let self : arrived turn (update s.child q c) q ≡ counts turn c.pc c.k =
        ap (λ (x : Child). counts turn x.pc x.k) (update_self s.child q c) in
      let rest =
        total_change (arrived turn s.child) (arrived turn (update s.child q c)) q threads lt
          (λ u ne. ap (λ (x : Child). counts turn x.pc x.k) (update_other s.child q u c ne)) in
      rest ∙ ap (λ (x : ℕ). total (arrived turn s.child) threads + x) self

  pub missing_change :
      total (missing (update s.child q c)) threads + missing s.child q
      ≡ total (missing s.child) threads + lost c.pc
  missing_change =
      let self : missing (update s.child q c) q ≡ lost c.pc =
        ap (λ (x : Child). lost x.pc) (update_self s.child q c) in
      let rest =
        total_change (missing s.child) (missing (update s.child q c)) q threads lt
          (λ u ne. ap (λ (x : Child). lost x.pc) (update_other s.child q u c ne)) in
      rest ∙ ap (λ (x : ℕ). total (missing s.child) threads + x) self

  -- What is known of every child, after one has changed.
  pub each_changed :
      (P : Child → Type 0)
      → P c
      → ((u : ℕ) → u < threads → P (s.child u))
      → (u : ℕ) → u < threads
      → P (update s.child q c u)
  each_changed P own others u h = elim (ℕ_discrete q u) [
    | yes same ↦ subst P (sym (ap (update s.child q c) (sym same) ∙ update_self s.child q c)) own
    | no ne ↦ subst P (sym (update_other s.child q u c ne)) (others u h)
  ]

-- What the place of a child says of its round.
pub when_working :
    {n turn k : ℕ} {p : Pc} → InTurn n turn p k → p ≡ working → (k ≡ turn) × (turn < n)
when_working (at_work lt) e = (refl, lt)
when_working (counted lt) e = cc
when_working (behind lt h) e = cc
when_working (through h) e = cc
when_working (away h) e = cc

pub when_waiting :
    {n turn k : ℕ} {p : Pc}
    → InTurn n turn p k
    → p ≡ waiting
    → ((k ≡ turn) × (turn < n)) ⊎ ((k < n) × (turn ≡ suc k))
when_waiting (at_work lt) e = cc
when_waiting (counted lt) e = inl (refl, lt)
when_waiting (behind lt h) e = inr (lt, h)
when_waiting (through h) e = cc
when_waiting (away h) e = cc

pub when_leaving :
    {n turn k : ℕ} {p : Pc} → InTurn n turn p k → p ≡ leaving → (k ≡ turn) × (turn ≡ n)
when_leaving (at_work lt) e = cc
when_leaving (counted lt) e = cc
when_leaving (behind lt h) e = cc
when_leaving (through h) e = (refl, h)
when_leaving (away h) e = cc

pub when_counted :
    {n turn k : ℕ} {p : Pc}
    → InTurn n turn p k
    → counts turn p k ≡ 1
    → (p ≡ waiting) × (k ≡ turn) × (turn < n)
when_counted (at_work lt) e = absurd (omega (arith, e))
when_counted (counted lt) e = (refl, refl, lt)
when_counted (behind lt h) e = absurd (ground (arith, e, h))
when_counted (through h) e = absurd (omega (arith, e))
when_counted (away h) e = absurd (omega (arith, e))

pub counts-le : (turn : ℕ) (p : Pc) (k : ℕ) → counts turn p k ≤ 1
counts-le turn working k = omega arith
counts-le turn waiting k = ground arith
counts-le turn leaving k = omega arith
counts-le turn gone k = omega arith

pub lost-le : (p : Pc) → lost p ≤ 1
lost-le working = omega arith
lost-le waiting = omega arith
lost-le leaving = omega arith
lost-le gone = omega arith

pub enter-InTurn : (n turn k : ℕ) → k < n → turn ≡ suc k → InTurn n turn (enter n (k + 1)) (k + 1)
enter-InTurn n turn k lt e =
    let at : turn ≡ k + 1 = omega (arith, e) in
    elim (Bool-cases (ltb (k + 1) n)) [
      | inl h ↦
          let w : InTurn n turn working turn = at_work (ground arith) in
          rw h (subst (InTurn n turn working) at w)
      | inr h ↦
          let w : InTurn n turn leaving turn = through (ground arith) in
          rw h (subst (InTurn n turn leaving) at w)
    ]

pub enter-counts : (n turn k : ℕ) → (counts turn (enter n k) k ≡ 0) × (lost (enter n k) ≡ 0)
enter-counts n turn k = elim (Bool-cases (ltb k n)) [
  | inl h ↦ rw h (refl, refl)
  | inr h ↦ rw h (refl, refl)
]
