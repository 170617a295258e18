-- ===== src/Closure/Flip/Ends.antt =====
-- Steps after which less work is left, up to the end.
use os_design.Prelude.{
  ℕ, zero, suc, ◌+◌, ◌<◌, ◌≡◌, refl, ap, ◌∙◌, true, ◌==◌, ◌&&◌, not, arith, inl, inr, ◌⊎◌,
}
use mathlib.Core.Path.{subst}
use os_design.Prelude.Sums.{total_ones, some-or-all}
use os_design.Closure.Flip.{
  Pc, waiting, gone, Child, Parent, flipping, checking, ended, Shared, update, enter, not_int,
  arrive, look, leave, flip, check, Step, arrives, looks, leaves, flips, checks, Reach, Run, stay,
  step,
}
use os_design.Closure.Flip.Turns.{arrived, counts, missing, lost, Turned}
use os_design.Closure.Flip.Steps.{arrive-Turned, look-Turned, leave-Turned, flip_full, check-Turned}
use os_design.Closure.Flip.Work.{
  work, parent_work, all_work, work_change, enter-work, Moves, works, passes, goes, Rests, waits,
  absent, moving_or_resting,
}
use os_design.Closure.Flip.Laws.{Reach-Turned}

module _ (n threads : ℕ) where
  -- A step after which less work is left.
  record Eased (g : ℕ) (s : Shared) : Type 0 where
    after : Shared
    turn : ℕ
    taken : Step n threads s after
    turned : Turned n threads turn after
    less : all_work n threads turn after < all_work n threads g s

  child-Eased :
      (g : ℕ) (s : Shared)
      → Turned n threads g s
      → (q : ℕ) → q < threads
      → Moves n g (s.child q)
      → Eased g s
  unfolding arrive look leave
  child-Eased g s t q lt (works e) = record {
    after = arrive q s;
    turn = g;
    taken = arrives s q lt e;
    turned = arrive-Turned n threads g s t q lt e;
    less = omega (
      arith,
      work_change n threads s q lt (record (s.child q) { pc = waiting }),
      ap (λ (p : Pc). work n p (s.child q).k) e,
    );
  }
  child-Eased g s t q lt (passes e h f) =
      let c : Child = record {
        pc = enter n ((s.child q).k + 1);
        k = (s.child q).k + 1;
        next_flip = not_int (s.child q).next_flip;
      } in
      let moved : Shared = record s { child = update s.child q c } in
      let seen : s.cont == (s.child q).next_flip ≡ true = ground (arith, f, t.cont, t.flags q lt) in
      let same : look n q s ≡ moved = rw seen refl in
      record {
        after = moved;
        turn = g;
        taken = subst (Step n threads s) same (looks s q lt e);
        turned = subst (Turned n threads g) same (look-Turned n threads g s t q lt e);
        less = omega (
          arith,
          work_change n threads s q lt c,
          enter-work n (s.child q).k h,
          ap (λ (p : Pc). work n p (s.child q).k) e,
        );
      }
  child-Eased g s t q lt (goes e) = record {
    after = leave q s;
    turn = g;
    taken = leaves s q lt e;
    turned = leave-Turned n threads g s t q lt e;
    less = omega (
      arith,
      work_change n threads s q lt (record (s.child q) { pc = gone }),
      ap (λ (p : Pc). work n p (s.child q).k) e,
    );
  }

  -- From a state in which no child can go on.
  all_waiting :
      (g : ℕ) (s : Shared)
      → Turned n threads g s
      → ((q : ℕ) → q < threads → Rests n g (s.child q))
      → g < n
      → s.b_count ≡ threads
  all_waiting g s t rest lt =
      t.counter ∙ total_ones (arrived g s.child) threads (λ q h. one (rest q h))
    where
      one : {q : ℕ} → Rests n g (s.child q) → arrived g s.child q ≡ 1
      one {q} (waits e same less) =
          ap (λ (p : Pc). counts g p (s.child q).k) e ∙ ground (arith, same)
      one {q} (absent e same) = absurd (omega (arith, same, lt))

  all_gone :
      (g : ℕ) (s : Shared)
      → Turned n threads g s
      → ((q : ℕ) → q < threads → Rests n g (s.child q))
      → g ≡ n
      → s.count ≡ 0
  all_gone g s t rest over =
      omega (arith, t.left, total_ones (missing s.child) threads (λ q h. one (rest q h)))
    where
      one : {q : ℕ} → Rests n g (s.child q) → missing s.child q ≡ 1
      one {q} (waits e same less) = absurd (omega (arith, over, less))
      one {q} (absent e same) = ap (λ (p : Pc). lost p) e

  check-Eased : (g : ℕ) (s : Shared) → Turned n threads g s → s.parent ≡ checking → Eased g s
  unfolding check
  check-Eased g s t e = record {
    after = check s;
    turn = g;
    taken = checks s e;
    turned = check-Turned n threads g s t e;
    less = ground (arith, ap parent_work e);
  }

  flip-Eased :
      (g : ℕ) (s : Shared)
      → Turned n threads g s
      → s.parent ≡ flipping
      → s.b_count ≡ threads
      → g < n
      → Eased g s
  unfolding flip
  flip-Eased g s t e full lt =
      let turned : Shared = record s {
        b_count = 0;
        cont = not_int s.cont;
        parent = checking;
        next_flip = s.cont;
      } in
      let ready : s.b_count == threads && not (s.cont == s.next_flip) ≡ true =
        ground (arith, full, t.cont, t.other) in
      record {
        after = turned;
        turn = suc g;
        taken = subst (Step n threads s) (rw ready refl) (flips s e);
        turned = flip_full n threads g s t full;
        less = omega (arith, lt);
      }

  checked :
      (s : Shared)
      → s.count ≡ 0
      → s.parent ≡ checking
      → (u : Shared) × Run n threads s u × (u.parent ≡ ended)
  unfolding check
  checked s none e = (check s, step (checks s e) stay, rw none refl)

  flipped :
      (s : Shared)
      → s.count ≡ 0
      → s.parent ≡ flipping
      → (u : Shared) × Run n threads s u × (u.parent ≡ ended)
  unfolding flip
  flipped s none e =
      let after = checked (flip threads s) (ground (arith, none)) (ground arith) in
      (after.0, step (flips s e) after.1, after.2)

  parent-cases : (p : Parent) → (p ≡ flipping) ⊎ ((p ≡ checking) ⊎ (p ≡ ended))
  parent-cases flipping = inl refl
  parent-cases checking = inr (inl refl)
  parent-cases ended = inr (inr refl)

  -- What can be done next: the run ends, or a step leaves less work.
  next_move :
      0 < threads
      → (g : ℕ) (s : Shared) → Turned n threads g s
      → ((u : Shared) × Run n threads s u × (u.parent ≡ ended)) ⊎ Eased g s
  next_move some g s t =
      elim (some-or-all threads (λ q lt.
        moving_or_resting (s.child q) (s.child q).pc (s.child q).k refl refl (t.places q lt))) [
          | inl (q, lt, m) ↦ inr (child-Eased g s t q lt m)
          | inr rest ↦ elim (parent-cases s.parent) [
            | inr (inr e) ↦ inl (s, stay, e)
            | inr (inl e) ↦ inr (check-Eased g s t e)
            | inl e ↦ elim (rest 0 some) [
              | waits w same lt ↦ inr (flip-Eased g s t e (all_waiting g s t rest lt) lt)
              | absent a over ↦ inl (flipped s (all_gone g s t rest over) e)
            ]
          ]
        ]

  ends_within :
      0 < threads
      → (fuel g : ℕ) (s : Shared) → Turned n threads g s
      → all_work n threads g s < fuel
      → (u : Shared) × Run n threads s u × (u.parent ≡ ended)
  ends_within some zero g s t lt = absurd (omega (arith, lt))
  ends_within some (suc fuel) g s t lt = elim (next_move some g s t) [
    | inl over ↦ over
    | inr m ↦
        let rest = ends_within some fuel m.turn m.after m.turned (omega (arith, lt, m.less)) in
        (rest.0, step m.taken rest.1, rest.2)
  ]

-- From every state that can be reached, with one child or more, some steps lead to a state in which
-- the parent has left its loop: neither the children nor the parent can be stuck for ever.
pub flip-ends :
    (n threads : ℕ) (s : Shared)
    → 0 < threads
    → Reach n threads s
    → (u : Shared) × Run n threads s u × (u.parent ≡ ended)
flip-ends n threads s some r =
    let turned = Reach-Turned r in
    ends_within n threads some (suc (all_work n threads turned.0 s)) turned.0 s turned.1
      (omega arith)
