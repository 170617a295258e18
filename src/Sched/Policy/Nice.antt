-- ===== src/Sched/Policy/Nice.antt =====
-- `sys_nice` and its limits.
use os_design.Prelude.{ℕ, ◌≡◌, ◌≢◌, true, false, if◌then◌else◌, arith, inl, inr, ◌⊎◌, sym, ◌∙◌}
use os_design.Prelude.Int.{ℤ, pos, negsuc, ◌+ℤ◌, lt_ℤ, ◌≤ℤ◌, ◌<ℤ◌, int_laws}
use os_design.Sched.Task.{Headers, Task}
use os_design.Sched.Idle.{Kernel}
use os_design.Sched.Policy.{ret, eperm, Env, sys_nice, limit}

abbrev pub InRange : ℤ → Type 0
InRange n = (negsuc 19 ≤ℤ n) × (n ≤ℤ pos 19)

-- The nearest value from -20 to 19.
abbrev pub clamp : ℤ → ℤ
clamp n = if lt_ℤ n (negsuc 19) then negsuc 19 else if lt_ℤ (pos 19) n then pos 19 else n

clamp-limit : (n : ℤ) → limit (negsuc 19) (pos 19) n ≡ clamp n
unfolding limit
clamp-limit n = ground arith

limit-parts :
    (i : ℤ)
    → (limit (negsuc 39) (pos 40) i ≡ i)
      ⊎ (((limit (negsuc 39) (pos 40) i ≡ negsuc 39) × (i <ℤ negsuc 39))
          ⊎ ((limit (negsuc 39) (pos 40) i ≡ pos 40) × (pos 40 <ℤ i)))
unfolding limit
limit-parts i = ground arith

clamp_low : (n : ℤ) → n <ℤ negsuc 19 → clamp n ≡ negsuc 19
clamp_low n h = ground arith

clamp_high : (n : ℤ) → pos 19 <ℤ n → clamp n ≡ pos 19
clamp_high n h = ground arith

-- The limits on the increment do not change the outcome.
clamp_limit : (m i : ℤ) → InRange m → clamp (m +ℤ limit (negsuc 39) (pos 40) i) ≡ clamp (m +ℤ i)
clamp_limit m i r = elim (limit-parts i) [
  | inl same ↦ rw same
  | inr (inl (e, low)) ↦
      rw e (clamp_low (m +ℤ negsuc 39) (omega int_laws) ∙ sym (clamp_low (m +ℤ i) (omega int_laws)))
  | inr (inr (e, high)) ↦
      rw e (clamp_high (m +ℤ pos 40) (omega int_laws) ∙ sym (clamp_high (m +ℤ i) (omega int_laws)))
]

module _ (h : Headers) (env : Env) (k : Kernel) (increment : ℤ) where
  abbrev now : Task
  now = k.task env.current

  abbrev after : Task
  after = (sys_nice h env k increment).0.task env.current

  -- From a nice value in range, the call gives the nearest value in range to the sum of the old one
  -- and the increment, and returns 0; but a negative increment without the capability is refused
  -- and changes nothing. No other task changes.
  pub sys_nice_lem :
      InRange now.nice
      → (((increment <ℤ pos 0) × (env.capable ≡ false)) → sys_nice h env k increment ≡ (k, eperm))
        × (((pos 0 ≤ℤ increment) ⊎ (env.capable ≡ true))
            → ((sys_nice h env k increment).1 ≡ ret (pos 0))
              × (after.nice ≡ clamp (now.nice +ℤ increment)))
        × ((q : ℕ) → env.current ≢ q → (sys_nice h env k increment).0.task q ≡ k.task q)
  unfolding sys_nice
  sys_nice_lem r = (
    λ (neg, refused). ground arith,
    λ allowed. (
      ground arith,
      ground (
        arith,
        clamp-limit (now.nice +ℤ limit (negsuc 39) (pos 40) increment),
        clamp_limit now.nice increment r,
      ),
    ),
    λ q other. ground arith,
  )
