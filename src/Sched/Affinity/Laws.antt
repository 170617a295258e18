-- ===== src/Sched/Affinity/Laws.antt =====
-- When `set_cpus_allowed` returns, and where the task is then.
use os_design.Prelude.{
  ℕ, zero, suc, ◌<◌, ◌≡◌, ◌≢◌, refl, ◌∙◌, ◌⊎◌, inl, inr, false, ◌==◌, Bool-cases, bit_and, arith,
}
use os_design.Sched.Idle.{Kernel}
use os_design.Sched.Affinity.{
  Outcome, bug, done, on_legal, allow, wait_legal, push, set_cpus_allowed,
}

module _ (schedule : Kernel → Kernel) (cpu_online_map current : ℕ) where
  -- `schedule` a number of times.
  unfoldable pub times : ℕ → Kernel → Kernel
  times zero k = k
  times (suc n) k = times n (schedule k)

  -- The end of the loop: the task is on a legal processor.
  pub record Legal (p : ℕ) (mask : ℕ) (o : Outcome) : Type 0 where
    pub last : Kernel
    pub returns : o ≡ done last
    pub legal : on_legal last p ≢ 0
    pub allowed : (last.task p).cpus_allowed ≡ mask

  not_zero : (x : ℕ) → x ≢ 0 → (x == 0) ≡ false
  not_zero x ne = ground (arith, ne)

  is_legal : (x : ℕ) → (x == 0) ≡ false → x ≢ 0
  is_legal x other e = ground (arith, other, e)

  wait_legal-Legal :
      (n fuel : ℕ) (k : Kernel) (p mask : ℕ)
      → ((k : Kernel) → ((schedule k).task p).cpus_allowed ≡ (k.task p).cpus_allowed)
      → n < fuel
      → on_legal (times n k) p ≢ 0
      → (k.task p).cpus_allowed ≡ mask
      → Legal p mask (wait_legal schedule cpu_online_map current fuel k p)
  unfolding wait_legal times
  wait_legal-Legal n zero k p mask keeps lt ends a = absurd (omega arith)
  wait_legal-Legal zero (suc fuel) k p mask keeps lt ends a =
      rw (not_zero (on_legal k p) ends)
        record { last = k; returns = refl; legal = ends; allowed = a }
  wait_legal-Legal (suc n) (suc fuel) k p mask keeps lt ends a =
      elim (Bool-cases (on_legal k p == 0)) [
        | inl waits ↦
            rw waits
              (wait_legal-Legal n fuel (schedule k) p mask keeps (omega arith) ends (keeps k ∙ a))
        | inr legal ↦
            rw legal record {
              last = k;
              returns = refl;
              legal = is_legal (on_legal k p) legal;
              allowed = a;
            }
      ]

  pushed_mask :
      (k : Kernel) (p mask : ℕ)
      → ((push schedule cpu_online_map current (allow k p mask) p).task p).cpus_allowed ≡ mask
  unfolding push
  pushed_mask k p mask = ground arith

  -- For a `schedule` that keeps the mask of the task and, if a processor of the new mask is online,
  -- has it on a legal processor after some number of calls, below the fuel: the call fails as a bug
  -- exactly if no processor of the new mask is online, and else it returns with the task's mask cut
  -- to the processors that are online, and the task on one of them.
  pub set_cpus_allowed-Legal :
      (n fuel : ℕ) (k : Kernel) (p new_mask : ℕ)
      → ((k : Kernel) → ((schedule k).task p).cpus_allowed ≡ (k.task p).cpus_allowed)
      → n < fuel
      → (bit_and new_mask cpu_online_map ≢ 0
          → on_legal
              (times n (
                push schedule cpu_online_map current
                  (allow k p (bit_and new_mask cpu_online_map))
                  p))
              p
            ≢ 0)
      → ((bit_and new_mask cpu_online_map ≡ 0)
          × (set_cpus_allowed schedule cpu_online_map current fuel k p new_mask ≡ bug))
        ⊎ ((bit_and new_mask cpu_online_map ≢ 0)
            × Legal p
                (bit_and new_mask cpu_online_map)
                (set_cpus_allowed schedule cpu_online_map current fuel k p new_mask))
  unfolding set_cpus_allowed
  set_cpus_allowed-Legal n fuel k p new_mask keeps lt ends =
      let mask = bit_and new_mask cpu_online_map in
      let k' = allow k p mask in
      elim (Bool-cases (mask == 0)) [
        | inl none_left ↦ inl (ground arith, rw none_left refl)
        | inr some_left ↦
            let some_online = is_legal mask some_left in
            elim (Bool-cases (on_legal k' p == 0)) [
              | inl away ↦ inr (
                some_online,
                rw (some_left, away)
                    (wait_legal-Legal n fuel (push schedule cpu_online_map current k' p) p mask
                      keeps lt (ends some_online) (pushed_mask k p mask)),
              )
              | inr legal ↦ inr (
                some_online,
                rw (some_left, legal)
                    record {
                      last = k';
                      returns = refl;
                      legal = is_legal (on_legal k' p) legal;
                      allowed = ground arith;
                    },
              )
            ]
      ]
