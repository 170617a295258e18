-- ===== src/Closure/Flip/Steps.antt =====
-- What the steps do to a state in a turn of the flag.
use os_design.Prelude.{
  ℕ, suc, ◌+◌, ◌%◌, ◌<◌, ◌≡◌, sym, ap, ◌∙◌, ◌==◌, ◌&&◌, not, arith, inl, inr, Bool-cases,
}
use os_design.Prelude.Sums.{total-le, total-full, total_zero}
use mathlib.Core.Path.{subst}
use os_design.Closure.Flip.{
  Pc, working, waiting, leaving, gone, Child, checking, Shared, update, not_int, enter, arrive,
  look, leave, flip, check,
}
use os_design.Closure.Flip.Turns.{
  InTurn, counted, behind, away, counts, lost, arrived, missing, Turned, arrived_change,
  missing_change, each_changed, when_working, when_waiting, when_leaving, when_counted, counts-le,
  lost-le, enter-InTurn, enter-counts,
}

module _ (n threads turn : ℕ) (s : Shared) (t : Turned n threads turn s) where
  pub arrive-Turned :
      (q : ℕ) → q < threads → (s.child q).pc ≡ working → Turned n threads turn (arrive q s)
  unfolding arrive
  arrive-Turned q lt e =
      let at = when_working (t.places q lt) e in
      let c : Child = record (s.child q) { pc = waiting } in
      let mine = ap (λ (p : Pc). counts turn p (s.child q).k) e in
      let own = ap (λ (p : Pc). lost p) e in
      record {
        cont = t.cont;
        other = t.other;
        counter = ground (arith, arrived_change n threads turn s q lt c, t.counter, at, mine);
        left = omega (arith, missing_change n threads turn s q lt c, t.left, own);
        flags =
            each_changed n threads turn s q lt c (λ (x : Child). x.next_flip ≡ (x.k + 1) % 2)
              (t.flags q lt) t.flags;
        places =
            each_changed n threads turn s q lt c (λ (x : Child). InTurn n turn x.pc x.k)
              (subst (λ (k : ℕ). InTurn n turn waiting k) (sym at.0) (counted at.1)) t.places;
        over = t.over;
      }

  pub leave-Turned :
      (q : ℕ) → q < threads → (s.child q).pc ≡ leaving → Turned n threads turn (leave q s)
  unfolding leave
  leave-Turned q lt e =
      let at = when_leaving (t.places q lt) e in
      let c : Child = record (s.child q) { pc = gone } in
      let mine = ap (λ (p : Pc). counts turn p (s.child q).k) e in
      let own = ap (λ (p : Pc). lost p) e in
      let most =
        total-le (missing (update s.child q c)) threads (λ u. lost-le (update s.child q c u).pc) in
      record {
        cont = t.cont;
        other = t.other;
        counter = omega (arith, arrived_change n threads turn s q lt c, t.counter, mine);
        left = omega (arith, missing_change n threads turn s q lt c, t.left, own, most);
        flags =
            each_changed n threads turn s q lt c (λ (x : Child). x.next_flip ≡ (x.k + 1) % 2)
              (t.flags q lt) t.flags;
        places =
            each_changed n threads turn s q lt c (λ (x : Child). InTurn n turn x.pc x.k)
              (subst (λ (k : ℕ). InTurn n turn gone k) (sym at.0) (away at.1)) t.places;
        over = λ h. omega (arith, t.over h);
      }

  pub look-Turned :
      (q : ℕ) → q < threads → (s.child q).pc ≡ waiting → Turned n threads turn (look n q s)
  unfolding look
  look-Turned q lt e =
      let c : Child = record {
        pc = enter n ((s.child q).k + 1);
        k = (s.child q).k + 1;
        next_flip = not_int (s.child q).next_flip;
      } in
      elim (Bool-cases (s.cont == (s.child q).next_flip)) [
        | inr h ↦ rw h t
        | inl h ↦ rw h (elim (when_waiting (t.places q lt) e) [
          | inl (same, less) ↦ absurd (ground (arith, h, same, t.cont, t.flags q lt))
          | inr (less, next) ↦
              let mine = ap (λ (p : Pc). counts turn p (s.child q).k) e in
              let none_yet = enter-counts n turn ((s.child q).k + 1) in
              let own = ap (λ (p : Pc). lost p) e in
              record {
                cont = t.cont;
                other = t.other;
                counter = ground (
                  arith,
                  arrived_change n threads turn s q lt c,
                  t.counter,
                  mine,
                  none_yet,
                  next,
                );
                left = omega (arith, missing_change n threads turn s q lt c, t.left, own, none_yet);
                flags =
                    each_changed n threads turn s q lt c
                      (λ (x : Child). x.next_flip ≡ (x.k + 1) % 2) (ground (arith, t.flags q lt))
                      t.flags;
                places =
                    each_changed n threads turn s q lt c (λ (x : Child). InTurn n turn x.pc x.k)
                      (enter-InTurn n turn (s.child q).k less next) t.places;
                over = t.over;
              }
        ])
      ]

  -- When all the children are counted, the flag begins another turn.
  pub all_counted :
      s.b_count ≡ threads
      → (q : ℕ) → q < threads
      → ((s.child q).pc ≡ waiting) × ((s.child q).k ≡ turn) × (turn < n)
  all_counted full q lt = when_counted (t.places q lt) (
      total-full (arrived turn s.child) threads (λ u. counts-le turn (s.child u).pc (s.child u).k)
        (omega (arith, t.counter)) q lt)

  pub flip_full :
      s.b_count ≡ threads
      → Turned n threads
          (suc turn)
          (record s { b_count = 0; cont = not_int s.cont; parent = checking; next_flip = s.cont })
  flip_full full =
      let all = all_counted full in
      record {
        cont = ground (arith, t.cont);
        other = ground (arith, t.cont);
        counter = sym (
            total_zero (arrived (suc turn) s.child) threads (λ u lt.
              let a = all u lt in
              ap (λ (p : Pc). counts (suc turn) p (s.child u).k) a.0 ∙ ground (arith, a.1)));
        left = t.left;
        flags = t.flags;
        places = λ q lt.
            let a = all q lt in
            subst (λ (p : Pc). InTurn n (suc turn) p (s.child q).k) (sym a.0)
              (behind (omega (arith, a)) (omega (arith, a)));
        over = λ g. cc;
      }

  pub flip-Turned : (g : ℕ) × Turned n threads g (flip threads s)
  unfolding flip
  flip-Turned = elim (Bool-cases (s.b_count == threads && not (s.cont == s.next_flip))) [
    | inl h ↦ rw h (suc turn, flip_full (ground (arith, h)))
    | inr h ↦ rw h (
      turn,
      record {
        cont = t.cont;
        other = t.other;
        counter = t.counter;
        left = t.left;
        flags = t.flags;
        places = t.places;
        over = λ g. cc;
      },
    )
  ]

  pub check-Turned : s.parent ≡ checking → Turned n threads turn (check s)
  unfolding check
  check-Turned e = record {
    cont = t.cont;
    other = t.other;
    counter = t.counter;
    left = t.left;
    flags = t.flags;
    places = t.places;
    over = λ h. ground (arith, h);
  }
