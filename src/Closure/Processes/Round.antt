-- ===== src/Closure/Processes/Round.antt =====
-- The invariant of a round of wtc_btproc.c, on the columns that are taken.
use os_design.Prelude.{
  ℕ, suc, ◌+◌, ◌*◌, ◌<◌, ◌≤◌, ◌≡◌, ◌≢◌, ◌⊎◌, sym, ap, ◌∙◌, List, length, some, arith, dec_lt, inl,
  inr, ℕ_discrete,
}
use mathlib.Core.Path.{subst}
use os_design.Prelude.Int.{ℤ, pos, negsuc}
use os_design.Closure.Walks.{Edges, via, Between}
use os_design.Closure.Processes.{
  set_queue, queue_pop, column, Child, popping, computing, at_barrier, Shared, move, take, Step,
  pop, compute, Reach, here, next,
}
use os_design.Closure.Processes.Column.{entry, column_lem, queue_pop_lem}

module _ (e : Edges) (n k threads : ℕ) where
  -- Column `y` has the values of the next round.
  abbrev pub Done : List ℕ → ℕ → Type 0
  Done m y = (x : ℕ) → x < n → entry n m x y ≡ via e (suc k) x y

  abbrev pub SomeComputes : (ℕ → Child) → ℕ → Type 0
  SomeComputes child y = (t : ℕ) × (t < threads) × (child t ≡ computing y)

  pub record Sound (s : Shared) : Type 0 where
    pub size : length s.matrix ≡ n * n
    pub between : Between e n k (entry n s.matrix)
    pub taken : s.q_num ≤ n
    pub handed : (y : ℕ) → y < s.q_num → Done s.matrix y ⊎ SomeComputes s.child y
    pub valid : (t y : ℕ) → s.child t ≡ computing y → y < n
    pub exhausted : (t : ℕ) → s.child t ≡ at_barrier → s.q_num ≡ n

  move_same : (child : ℕ → Child) (t : ℕ) (c : Child) → move child t c t ≡ c
  move_same child t c = ground arith

  move_other : (child : ℕ → Child) (t u : ℕ) (c : Child) → t ≢ u → move child t c u ≡ child u
  move_other child t u c ne = ground arith

  -- Who computes a column goes on with it while another child moves.
  keeps_computing :
      (child : ℕ → Child) (t y : ℕ) (c : Child)
      → (child t ≡ popping) ⊎ ((w : ℕ) × (child t ≡ computing w) × (w ≢ y))
      → SomeComputes child y
      → SomeComputes (move child t c) y
  keeps_computing child t y c was (u, lt, at) = elim (ℕ_discrete t u) [
    | no other ↦ (u, lt, move_other child t u c other ∙ at)
    | yes same ↦ absurd (not_it was (subst (λ (i : ℕ). child i ≡ computing y) (sym same) at))
  ]
    where
      not_it :
          (child t ≡ popping) ⊎ ((w : ℕ) × (child t ≡ computing w) × (w ≢ y))
          → child t ≡ computing y
          → ⊥
      not_it (inl p) at = cc
      not_it (inr (w, p, ne)) at = ne (ground (arith, p, at))

  module _ (s : Shared) (i : Sound s) (t : ℕ) (lt : t < threads) where
    pop_line :
        s.child t ≡ popping
        → s.q_num < n
        → Sound (record s { q_num = s.q_num + 1; child = move s.child t (computing s.q_num) })
    pop_line at more = record {
      size = i.size;
      between = i.between;
      taken = omega (arith, more);
      handed = λ y h. elim (ℕ_discrete y s.q_num) [
        | yes last ↦ inr (t, lt, move_same s.child t (computing s.q_num) ∙ ap computing (sym last))
        | no other ↦ elim (i.handed y (omega arith)) [
          | inl d ↦ inl d
          | inr c ↦ inr (keeps_computing s.child t y (computing s.q_num) (inl at) c)
        ]
      ];
      valid = λ u y h. elim (ℕ_discrete t u) [
        | yes same ↦ ground (arith, h, same, more)
        | no other ↦ i.valid u y (sym (move_other s.child t u (computing s.q_num) other) ∙ h)
      ];
      exhausted = λ u h. elim (ℕ_discrete t u) [
        | yes same ↦ ground (arith, h, same)
        | no other ↦
            let full = i.exhausted u (sym (move_other s.child t u (computing s.q_num) other) ∙ h) in
            absurd (omega (arith, full, more))
      ];
    }

    pop_end :
        s.child t ≡ popping → s.q_num ≡ n → Sound (record s { child = move s.child t at_barrier })
    pop_end at full = record {
      size = i.size;
      between = i.between;
      taken = i.taken;
      handed = λ y h. elim (i.handed y h) [
        | inl d ↦ inl d
        | inr c ↦ inr (keeps_computing s.child t y at_barrier (inl at) c)
      ];
      valid = λ u y h. elim (ℕ_discrete t u) [
        | yes same ↦ ground (arith, h, same)
        | no other ↦ i.valid u y (sym (move_other s.child t u at_barrier other) ∙ h)
      ];
      exhausted = λ u h. full;
    }

    done_column :
        (y : ℕ)
        → s.child t ≡ computing y
        → k < n
        → Sound (record s { matrix = column n k y s.matrix n; child = move s.child t popping })
    done_column y at below =
        let (size, between, value) =
          column_lem e n k y s.matrix i.size i.between below (i.valid t y at) in
        record {
          size = size ∙ i.size;
          between = between;
          taken = i.taken;
          handed = λ z h. elim (ℕ_discrete y z) [
            | yes same ↦
                inl (λ x hx. ground (arith, value x z hx (omega (arith, h, i.taken)), same))
            | no other ↦ elim (i.handed z h) [
              | inl d ↦
                  inl (λ x hx.
                    ground (arith, value x z hx (omega (arith, h, i.taken)), d x hx, other))
              | inr c ↦ inr (keeps_computing s.child t z popping (inr (y, at, other)) c)
            ]
          ];
          valid = λ u z h. elim (ℕ_discrete t u) [
            | yes same ↦ ground (arith, h, same)
            | no other ↦ i.valid u z (sym (move_other s.child t u popping other) ∙ h)
          ];
          exhausted = λ u h. elim (ℕ_discrete t u) [
            | yes same ↦ ground (arith, h, same)
            | no other ↦ i.exhausted u (sym (move_other s.child t u popping other) ∙ h)
          ];
        }

  module _ (queue : List ℤ) (room : n < length queue) (below : k < n) where
    Step-Sound : {s u : Shared} → Sound s → Step n k threads (set_queue queue n) s u → Sound u
    unfolding take
    Step-Sound {s} i (compute t y lt at) = done_column s i t lt y at below
    Step-Sound {s} i (pop t lt at y q e) = elim (dec_lt s.q_num n) [
      | yes more ↦
          subst (λ (r : ℤ × ℕ). Sound (record s { q_num = r.1; child = move s.child t (take r.0) }))
            (given (pos s.q_num, s.q_num + 1)
              (ground (arith, queue_pop_lem queue n s.q_num room i.taken)))
            (pop_line s i t lt at more)
      | no over ↦
          subst (λ (r : ℤ × ℕ). Sound (record s { q_num = r.1; child = move s.child t (take r.0) }))
            (given (negsuc 0, s.q_num) (ground (arith, queue_pop_lem queue n s.q_num room i.taken)))
            (pop_end s i t lt at (omega (arith, i.taken)))
    ]
      where
        given : (r : ℤ × ℕ) → queue_pop (set_queue queue n) s.q_num ≡ some r → r ≡ (y, q)
        given r f = cc

    pub Reach-Sound :
        {m : List ℕ} {s : Shared}
        → Sound (record { matrix = m; q_num = 0; child = λ t. popping })
        → Reach n k threads (set_queue queue n) m s
        → Sound s
    Reach-Sound i here = i
    Reach-Sound i (next r st) = Step-Sound (Reach-Sound i r) st
