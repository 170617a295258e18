-- ===== src/Sched/Wake/Common.antt =====
-- `__wake_up_common` against a plain loop that wakes every waiter of a list.
use os_design.Prelude.{
  ℕ, zero, suc, ◌+◌, ◌≤◌, ◌<◌, ◌≡◌, ◌≢◌, refl, ap, List, [], ◌∷◌, ◌++◌, Bool, true, false, ◌&&◌,
  not, ◌==◌, if◌then◌else◌, arith, inl, inr, ◌⊎◌, bit_and,
}
use mathlib.Core.Path.{subst}
use os_design.Prelude.Int.{ℤ, pos, ◌-ℤ◌, eq_ℤ, int_laws}
use os_design.Sched.Task.{Headers}
use os_design.Sched.Idle.{Cpus, Kernel}
use os_design.Sched.Wake.{Waiter, try_to_wake_up, wake_up_common}

module _ (h : Headers) (cpus : Cpus) (mode : ℕ) (sync : Bool) where
  abbrev pub sleeps : Kernel → Waiter → Bool
  sleeps k w = not (bit_and (k.task w.task).state mode == 0)

  abbrev pub exclusive : Waiter → Bool
  exclusive w = not (bit_and w.flags h.wq_flag_exclusive == 0)

  -- One waiter: it is woken if its state is in the mask.
  unfoldable pub wake_one : Kernel → Waiter → Kernel
  wake_one k w = if sleeps k w then (try_to_wake_up h cpus k w.task sync).0 else k

  -- Whether waking it counts: it was exclusive, and not on the run queue.
  unfoldable pub counts : Kernel → Waiter → ℕ
  counts k w =
      if sleeps k w && ((try_to_wake_up h cpus k w.task sync).1 && exclusive w) then 1 else 0

  -- Every waiter of the list in turn.
  unfoldable pub wake_each : Kernel → List Waiter → Kernel
  wake_each k [] = k
  wake_each k (w ∷ ws) = wake_each (wake_one k w) ws

  unfoldable pub count_each : Kernel → List Waiter → ℕ
  count_each k [] = 0
  count_each k (w ∷ ws) = counts k w + count_each (wake_one k w) ws

  -- How the loop went on the waiters `ws` with the limit `nr`: it woke those of `first`, and went
  -- no further because their exclusive wake-ups made `nr`, or because they were all. Before each of
  -- them fewer than `nr` were counted.
  pub record Woke (k : Kernel) (ws : List Waiter) (nr : ℕ) (k' : Kernel) : Type 0 where
    pub first : List Waiter
    pub rest : List Waiter
    pub split : ws ≡ first ++ rest
    pub result : k' ≡ wake_each k first
    pub limit : (rest ≡ []) ⊎ (count_each k first ≡ nr)
    pub bound : count_each k first ≤ nr
    pub needed : (xs ys : List Waiter) (w : Waiter) → first ≡ xs ++ w ∷ ys → count_each k xs < nr

  pub counts-cases : (k : Kernel) (w : Waiter) → (counts k w ≡ 0) ⊎ (counts k w ≡ 1)
  unfolding counts
  counts-cases k w = ground arith

  -- The turns of the loop.
  pub turn_free :
      (k : Kernel) (w : Waiter) (ws : List Waiter) (nr : ℤ)
      → counts k w ≡ 0
      → wake_up_common h cpus k (w ∷ ws) mode nr sync
        ≡ wake_up_common h cpus (wake_one k w) ws mode nr sync
  unfolding wake_up_common counts wake_one
  turn_free k w ws nr free = ground arith

  turn_last :
      (k : Kernel) (w : Waiter) (ws : List Waiter) (nr : ℤ)
      → counts k w ≡ 1
      → eq_ℤ (nr -ℤ pos 1) (pos 0) ≡ true
      → wake_up_common h cpus k (w ∷ ws) mode nr sync ≡ wake_one k w
  unfolding wake_up_common counts wake_one
  turn_last k w ws nr one last = ground arith

  pub turn_down :
      (k : Kernel) (w : Waiter) (ws : List Waiter) (nr : ℤ)
      → counts k w ≡ 1
      → eq_ℤ (nr -ℤ pos 1) (pos 0) ≡ false
      → wake_up_common h cpus k (w ∷ ws) mode nr sync
        ≡ wake_up_common h cpus (wake_one k w) ws mode (nr -ℤ pos 1) sync
  unfolding wake_up_common counts wake_one
  turn_down k w ws nr one more = ground arith

  not_nil : (xs ys : List Waiter) (w : Waiter) → [] ≢ xs ++ w ∷ ys
  not_nil [] ys w e = cc
  not_nil (x ∷ xs) ys w e = cc

  before :
      (k : Kernel) (w : Waiter) (nr : ℕ) (first : List Waiter)
      → 0 < counts k w + nr
      → ((xs ys : List Waiter) (v : Waiter)
          → first ≡ xs ++ v ∷ ys
          → count_each (wake_one k w) xs < nr)
      → (xs ys : List Waiter) (v : Waiter) → w ∷ first ≡ xs ++ v ∷ ys
      → count_each k xs < counts k w + nr
  unfolding count_each
  before k w nr first some needed [] ys v e = some
  before k w nr first some needed (x ∷ xs) ys v e =
      let same : w ≡ x = cc in
      let rest : first ≡ xs ++ v ∷ ys = cc in rw (← same) (omega (arith, needed xs ys v rest))

  Woke-cons :
      (k : Kernel) (w : Waiter) (ws : List Waiter) (nr : ℕ) {k' : Kernel}
      → 0 < counts k w + nr
      → Woke (wake_one k w) ws nr k'
      → Woke k (w ∷ ws) (counts k w + nr) k'
  Woke-cons k w ws nr some r = record {
    first = w ∷ r.first;
    rest = r.rest;
    split = ap (λ (l : List Waiter). w ∷ l) r.split;
    result = unfold wake_each in r.result;
    limit =
        unfold count_each in
        elim r.limit [ inl all ↦ inl all | inr full ↦ inr (omega (arith, full)) ];
    bound = unfold count_each in omega (arith, r.bound);
    needed = before k w nr r.first some r.needed;
  }

  abbrev common : Kernel → List Waiter → ℕ → Kernel
  common k ws nr = wake_up_common h cpus k ws mode (pos nr) sync

  Woke-free :
      (k : Kernel) (w : Waiter) (ws : List Waiter) (nr : ℕ)
      → counts k w ≡ 0
      → 0 < nr
      → Woke (wake_one k w) ws nr (common (wake_one k w) ws nr)
      → Woke k (w ∷ ws) nr (common k (w ∷ ws) nr)
  Woke-free k w ws nr free some r = rw (turn_free k w ws (pos nr) free) (
      subst (λ m. Woke k (w ∷ ws) m (common (wake_one k w) ws nr)) (omega (arith, free))
        (Woke-cons k w ws nr (omega (arith, some, free)) r))

  Woke-nobody : (k : Kernel) (ws : List Waiter) → Woke k ws 0 k
  Woke-nobody k ws = record {
    first = [];
    rest = ws;
    split = refl;
    result = unfold wake_each in refl;
    limit = inr (unfold count_each in refl);
    bound = unfold count_each in omega arith;
    needed = λ xs ys w e. absurd (not_nil xs ys w e);
  }

  Woke-last :
      (k : Kernel) (w : Waiter) (ws : List Waiter)
      → counts k w ≡ 1
      → Woke k (w ∷ ws) 1 (common k (w ∷ ws) 1)
  Woke-last k w ws one = rw (turn_last k w ws (pos 1) one (unfold ◌-ℤ◌ in refl)) (
      subst (λ m. Woke k (w ∷ ws) m (wake_one k w)) (omega (arith, one))
        (Woke-cons k w ws 0 (omega (arith, one)) (Woke-nobody (wake_one k w) ws)))

  minus_one : (m : ℕ) → pos (suc (suc m)) -ℤ pos 1 ≡ pos (suc m)
  minus_one m = omega int_laws

  Woke-down :
      (k : Kernel) (w : Waiter) (ws : List Waiter) (m : ℕ)
      → counts k w ≡ 1
      → Woke (wake_one k w) ws (suc m) (common (wake_one k w) ws (suc m))
      → Woke k (w ∷ ws) (suc (suc m)) (common k (w ∷ ws) (suc (suc m)))
  Woke-down k w ws m one r =
      rw (turn_down k w ws (pos (suc (suc m))) one (rw minus_one (ground arith)), minus_one)
        (subst (λ n. Woke k (w ∷ ws) n (common (wake_one k w) ws (suc m))) (omega (arith, one))
          (Woke-cons k w ws (suc m) (omega arith) r))

  -- With a limit of `nr` from 1 on, the loop wakes the waiters of the list from the first on, those
  -- whose state is in the mask, and stops when it has woken `nr` exclusive ones that were not on
  -- the run queue, or at the end of the list: at most `nr` such are woken, and nobody behind the last
  -- of `nr`.
  pub wake_up_common-Woke :
      (k : Kernel) (ws : List Waiter) (nr : ℕ) → Woke k ws (suc nr) (common k ws (suc nr))
  wake_up_common-Woke k [] nr = record {
    first = [];
    rest = [];
    split = refl;
    result = unfold wake_up_common wake_each in refl;
    limit = inl refl;
    bound = unfold count_each in omega arith;
    needed = λ xs ys w e. absurd (not_nil xs ys w e);
  }
  wake_up_common-Woke k (w ∷ ws) zero = elim (counts-cases k w) [
    | inl free ↦ Woke-free k w ws 1 free (omega arith) (wake_up_common-Woke (wake_one k w) ws zero)
    | inr one ↦ Woke-last k w ws one
  ]
  wake_up_common-Woke k (w ∷ ws) (suc nr) = elim (counts-cases k w) [
    | inl free ↦
        Woke-free k w ws (suc (suc nr)) free (omega arith)
          (wake_up_common-Woke (wake_one k w) ws (suc nr))
    | inr one ↦ Woke-down k w ws nr one (wake_up_common-Woke (wake_one k w) ws nr)
  ]
