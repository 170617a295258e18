-- ===== src/Sched/Idle/Search.antt =====
-- The processor that the loop of `reschedule_idle` settles on, where no siblings share a chip.
use os_design.Prelude.{
  ℕ, zero, suc, ◌+◌, ◌<◌, ◌≤◌, ◌≡◌, ◌≢◌, refl, true, false, some, ltb, arith, inl, inr, sym, ◌∙◌,
  ap, Bool-cases, ℕ_discrete,
}
use mathlib.Core.Path.{subst}
use native.Mathlib.Nat.{add-zero, zero-add}
use native.Mathlib.Numerals.{add-one}
use os_design.Prelude.Int.{ℤ, pos, lt_ℤ, ◌≤ℤ◌, ◌<ℤ◌}
use os_design.Sched.Task.{Headers, Task}
use os_design.Sched.Goodness.{preemption_goodness}
use os_design.Sched.Idle.{Cpus, Kernel, Best, can_schedule, idle, look_at, search, no_target}

module _ (h : Headers) (cpus : Cpus) (k : Kernel) (p : Task) where
  abbrev cpu : ℕ → ℕ
  cpu i = cpus.logical_map i

  abbrev prio : ℕ → ℤ
  prio i = preemption_goodness h cpus.smp (k.task (k.curr (cpu i))) p (cpu i)

  -- The processors `cpu 0` to `cpu (n - 1)` have been looked at.
  pub data Settled (n : ℕ) (b : Best) : Type 0 where
    -- An idle one was found: the one that has been idle longest.
    on_idle :
        (j : ℕ)
        → j < n
        → can_schedule h cpus p (cpu j) ≡ true
        → idle h cpus k (cpu j) ≡ true
        → b.target ≡ some (k.curr (cpu j))
        → b.oldest_idle ≡ k.last (cpu j)
        → ((i : ℕ)
            → i < n
            → can_schedule h cpus p (cpu i) ≡ true
            → idle h cpus k (cpu i) ≡ true
            → k.last (cpu j) ≤ k.last (cpu i))
        → Settled n b
    -- All are busy, and one runs the task that loses most against `p`.
    on_busy :
        (j : ℕ)
        → j < n
        → can_schedule h cpus p (cpu j) ≡ true
        → b.target ≡ some (k.curr (cpu j))
        → b.oldest_idle ≡ cpus.cycles_max
        → b.max_prio ≡ prio j
        → pos 0 <ℤ prio j
        → ((i : ℕ)
            → i < n
            → can_schedule h cpus p (cpu i) ≡ true
            → (idle h cpus k (cpu i) ≡ false) × (prio i ≤ℤ prio j))
        → Settled n b
    -- All are busy with better tasks.
    nowhere :
        b ≡ no_target h cpus
        → ((i : ℕ)
            → i < n
            → can_schedule h cpus p (cpu i) ≡ true
            → (idle h cpus k (cpu i) ≡ false) × (prio i ≤ℤ pos 0))
        → Settled n b

  -- What the turn for processor `c` can be.
  data Look (c : ℕ) (b b' : Best) : Type 0 where
    skipped : can_schedule h cpus p c ≡ false → b' ≡ b → Look c b b'
    older :
        idle h cpus k c ≡ true
        → k.last c < b.oldest_idle
        → can_schedule h cpus p c ≡ true
        → b'.target ≡ some (k.curr c)
        → b'.oldest_idle ≡ k.last c
        → Look c b b'
    younger : idle h cpus k c ≡ true → b.oldest_idle ≤ k.last c → b' ≡ b → Look c b b'
    better :
        idle h cpus k c ≡ false
        → b.oldest_idle ≡ cpus.cycles_max
        → can_schedule h cpus p c ≡ true
        → b.max_prio <ℤ preemption_goodness h cpus.smp (k.task (k.curr c)) p c
        → b' ≡ record {
          oldest_idle = b.oldest_idle;
          target = some (k.curr c);
          max_prio = preemption_goodness h cpus.smp (k.task (k.curr c)) p c;
        }
        → Look c b b'
    worse :
        idle h cpus k c ≡ false
        → preemption_goodness h cpus.smp (k.task (k.curr c)) p c ≤ℤ b.max_prio
        → b' ≡ b
        → Look c b b'
    passed : idle h cpus k c ≡ false → b.oldest_idle ≢ cpus.cycles_max → b' ≡ b → Look c b b'

  extend : {P : ℕ → Type 0} (n : ℕ) → ((i : ℕ) → i < n → P i) → P n → (i : ℕ) → i < suc n → P i
  extend {P} n below last i lt = elim (ℕ_discrete i n) [
    | yes same ↦ subst P (sym same) last
    | no other ↦ below i (omega arith)
  ]

  Settled-next :
      (clock : (c : ℕ) → k.last c < cpus.cycles_max) (n : ℕ) (b b' : Best)
      → Settled n b
      → Look (cpu n) b b'
      → Settled (suc n) b'
  Settled-next clock n b b' (on_idle j lt can rests t o best) (skipped barred e) =
      rw e (on_idle j (omega arith) can rests t o (extend n best (λ c r. cc)))
  Settled-next clock n b b' (on_idle j lt can rests t o best) (older r new c t' o') =
      on_idle n (omega arith) c r t' o'
        (extend n (λ i hi ci ri. omega (arith, best i hi ci ri)) (λ c r. omega arith))
  Settled-next clock n b b' (on_idle j lt can rests t o best) (younger r old e) =
      rw e (on_idle j (omega arith) can rests t o (extend n best (λ c r. omega arith)))
  Settled-next clock n b b' (on_idle j lt can rests t o best) (better w none_idle _ _ _) =
      absurd (omega (arith, clock (cpu j)))
  Settled-next clock n b b' (on_idle j lt can rests t o best) (worse w le e) =
      rw e (on_idle j (omega arith) can rests t o (extend n best (λ c r. cc)))
  Settled-next clock n b b' (on_idle j lt can rests t o best) (passed w found e) =
      rw e (on_idle j (omega arith) can rests t o (extend n best (λ c r. cc)))
  Settled-next clock n b b' (on_busy j lt can t o m above all) (skipped barred e) =
      rw e (on_busy j (omega arith) can t o m above (extend n all (λ c. cc)))
  Settled-next clock n b b' (on_busy j lt can t o m above all) (older r new c t' o') =
      on_idle n (omega arith) c r t' o'
        (extend n (λ i hi ci ri. cc ((all i hi ci).0)) (λ c r. omega arith))
  Settled-next clock n b b' (on_busy j lt can t o m above all) (younger r old e) =
      absurd (omega (arith, clock (cpu n)))
  Settled-next clock n b b' (on_busy j lt can t o m above all) (better w none_idle c gt e) =
      let gt' : prio j <ℤ prio n = subst (λ x. x <ℤ prio n) m gt in
      rw e (
        on_busy n (omega arith) c refl o refl (omega arith) (
          extend n (λ i hi ci. ((all i hi ci).0, omega (arith, (all i hi ci).1)))
            (λ c. (w, omega arith))))
  Settled-next clock n b b' (on_busy j lt can t o m above all) (worse w le e) = rw e (
      on_busy j (omega arith) can t o m above
        (extend n all (λ c. (w, subst (λ x. prio n ≤ℤ x) m le))))
  Settled-next clock n b b' (on_busy j lt can t o m above all) (passed w found e) = absurd (found o)
  Settled-next clock n b b' (nowhere start all) (skipped barred e) =
      nowhere (e ∙ start) (extend n all (λ c. cc))
  Settled-next clock n b b' (nowhere start all) (older r new c t' o') =
      on_idle n (omega arith) c r t' o'
        (extend n (λ i hi ci ri. cc ((all i hi ci).0)) (λ c r. omega arith))
  Settled-next clock n b b' (nowhere start all) (younger r old e) =
      absurd (omega (arith, clock (cpu n), ap (λ (q : Best). q.oldest_idle) start))
  Settled-next clock n b b' (nowhere start all) (better w none_idle c gt e) =
      let gt' : pos 0 <ℤ prio n =
        subst (λ x. x <ℤ prio n) (ap (λ (q : Best). q.max_prio) start) gt in
      rw e (
        on_busy n (omega arith) c refl none_idle refl gt' (
          extend n (λ i hi ci. ((all i hi ci).0, omega (arith, (all i hi ci).1)))
            (λ c. (w, omega arith))))
  Settled-next clock n b b' (nowhere start all) (worse w le e) =
      nowhere (e ∙ start)
        (extend n all (λ c. (w, subst (λ x. prio n ≤ℤ x) (ap (λ (q : Best). q.max_prio) start) le)))
  Settled-next clock n b b' (nowhere start all) (passed w found e) =
      absurd (found (ap (λ (q : Best). q.oldest_idle) start))

  module _ (alone : cpus.num_siblings ≢ 2) where
    look_at-Look : (c : ℕ) (b : Best) → Look c b (look_at h cpus k p c b).0
    unfolding look_at
    look_at-Look c b = elim (Bool-cases (can_schedule h cpus p c)) [
      | inr barred ↦ skipped barred (rw barred)
      | inl can ↦ elim (Bool-cases (idle h cpus k c)) [
        | inl rests ↦ elim (Bool-cases (ltb (k.last c) b.oldest_idle)) [
          | inl lt ↦ older rests (ground arith) can (ground arith) (ground arith)
          | inr ge ↦ younger rests (ground arith) (ground arith)
        ]
        | inr works ↦ elim (ℕ_discrete b.oldest_idle cpus.cycles_max) [
          | no found ↦ passed works found (ground arith)
          | yes none_idle ↦
              elim (Bool-cases
                (lt_ℤ b.max_prio (preemption_goodness h cpus.smp (k.task (k.curr c)) p c))) [
                  | inl gt ↦ better works none_idle can (ground arith) (ground arith)
                  | inr le ↦ worse works (ground arith) (ground arith)
                ]
        ]
      ]
    ]

    look_at-goes_on : (c : ℕ) (b : Best) → (look_at h cpus k p c b).1 ≡ false
    unfolding look_at
    look_at-goes_on c b = ground arith

    search-Settled :
        (clock : (c : ℕ) → k.last c < cpus.cycles_max) (left i : ℕ) (b : Best)
        → Settled i b
        → Settled (i + left) (search h cpus k p left i b)
    unfolding search
    search-Settled clock zero i b s = rw add-zero s
    search-Settled clock (suc left) i b s =
        let b' = (look_at h cpus k p (cpu i) b).0 in
        let step = Settled-next clock i b b' s (look_at-Look (cpu i) b) in
        let count : suc i + left ≡ i + suc left = omega arith in
        rw (look_at-goes_on (cpu i) b, add-one i)
          (subst (λ m. Settled m (search h cpus k p left (suc i) b')) count
            (search-Settled clock left (suc i) b' step))

    -- The loop over all processors, from its start: it settles on the allowed idle processor that
    -- has been idle longest; if none is idle, on an allowed one whose task loses most against the
    -- woken one; and on none exactly if no allowed processor's task loses. Siblings that share a
    -- chip are not looked for, and no time stamp is the greatest number of cycles.
    pub search-settles :
        (clock : (c : ℕ) → k.last c < cpus.cycles_max)
        → Settled cpus.num_cpus (search h cpus k p cpus.num_cpus 0 (no_target h cpus))
    search-settles clock =
        subst (λ m. Settled m (search h cpus k p cpus.num_cpus 0 (no_target h cpus)))
          (zero-add cpus.num_cpus)
          (search-Settled clock cpus.num_cpus 0 (no_target h cpus)
            (nowhere refl (λ i lt. absurd (omega arith))))
