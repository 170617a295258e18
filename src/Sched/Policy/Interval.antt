-- ===== src/Sched/Policy/Interval.antt =====
-- Project_2/stuff/sched.c: the time slices of `NICE_TO_TICKS`, and `sys_sched_rr_get_interval`.
use os_design.Prelude.{
  ℕ, ◌/◌, ◌≤◌, Bool, not, Option, none, some, ltb, ◌==◌, if◌then◌else◌, bit_and, arith, Bool-cases,
  inl, inr,
}
use os_design.Prelude.Int.{ℤ, pos, negsuc, ◌+ℤ◌, ◌-ℤ◌, lt_ℤ, ◌≤ℤ◌, int_laws}
use os_design.Sched.Task.{Headers}
use os_design.Sched.Idle.{Kernel}
use os_design.Sched.Policy.{Return, ret, einval, efault, esrch, Env, find_process_by_pid}

-- The arithmetic shift `x >> n` of an `int`, with `d` for 2 ^ n.
pub shift_right : ℕ → ℤ → ℤ
shift_right d (pos n) = pos (n / d)
shift_right d (negsuc n) = negsuc (n / d)

module _ (hz : ℕ) where
  -- `TICK_SCALE`, chosen by HZ.
  pub tick_scale : ℤ → ℤ
  unfolding shift_right
  tick_scale x =
      if ltb hz 200
      then shift_right 4 x
      else if ltb hz 400
      then shift_right 2 x
      else if ltb hz 800
      then x
      else if ltb hz 1600
      then x +ℤ x
      else x +ℤ x +ℤ (x +ℤ x)

  pub nice_to_ticks : ℤ → ℤ
  unfolding tick_scale
  nice_to_ticks nice = tick_scale (pos 20 -ℤ nice) +ℤ pos 1

  -- The call, with what `copy_to_user` makes of the copy: the ticks that are turned into the
  -- interval.
  module _ (h : Headers) (env : Env) where
    pub interval_found : Kernel → Option ℕ → Bool → Return × Option ℤ
    unfolding nice_to_ticks
    interval_found k none writable = (esrch, none)
    interval_found k (some p) writable =
        let t =
          if not (bit_and (k.task p).policy h.sched_fifo == 0)
          then pos 0
          else nice_to_ticks (k.task p).nice in
        if writable then (ret (pos 0), some t) else (efault, none)

    pub sys_sched_rr_get_interval : Kernel → ℤ → Bool → Return × Option ℤ
    unfolding interval_found
    sys_sched_rr_get_interval k pid writable =
        if lt_ℤ pid (pos 0)
        then (einval, none)
        else interval_found k (find_process_by_pid h env pid) writable

  -- The order is kept by what each value of HZ selects.
  abbrev Kept : ℤ → ℤ → Type 0
  Kept u v = (pos 0 ≤ℤ u) × (u ≤ℤ v)

  shift_right-Kept :
      (x y : ℕ)
      → x ≤ y
      → Kept (shift_right 4 (pos x)) (shift_right 4 (pos y))
        × Kept (shift_right 2 (pos x)) (shift_right 2 (pos y))
  unfolding shift_right
  shift_right-Kept x y le = (omega arith, omega arith)

  -- On positive numbers the shifts keep the order.
  tick_scale_mono : (a b : ℕ) → a ≤ b → Kept (tick_scale (pos a)) (tick_scale (pos b))
  unfolding tick_scale
  tick_scale_mono a b le = elim (Bool-cases (ltb hz 200)) [
    | inl p ↦ rw p (shift_right-Kept a b le).0
    | inr p ↦ elim (Bool-cases (ltb hz 400)) [
      | inl q ↦ rw p (rw q (shift_right-Kept a b le).1)
      | inr q ↦ elim (Bool-cases (ltb hz 800)) [
        | inl r ↦ rw p (rw q (rw r (omega arith, omega arith)))
        | inr r ↦ elim (Bool-cases (ltb hz 1600)) [
          | inl s ↦ rw p (rw q (rw r (rw s (omega int_laws, omega int_laws))))
          | inr s ↦ rw p (rw q (rw r (rw s (omega int_laws, omega int_laws))))
        ]
      ]
    ]
  ]

  tick_scale-Kept : (x y : ℤ) → pos 1 ≤ℤ x → x ≤ℤ y → Kept (tick_scale x) (tick_scale y)
  tick_scale-Kept (pos a) (pos b) one le = tick_scale_mono a b (omega arith)
  tick_scale-Kept (pos a) (negsuc b) one le = absurd (omega arith)
  tick_scale-Kept (negsuc a) y one le = absurd (omega arith)

  difference :
      (m n : ℤ)
      → negsuc 19 ≤ℤ m
      → m ≤ℤ n
      → n ≤ℤ pos 19
      → (pos 1 ≤ℤ (pos 20 -ℤ n)) × ((pos 20 -ℤ n) ≤ℤ (pos 20 -ℤ m))
  difference m n lo le hi = (omega int_laws, omega int_laws)

  more :
      (x y : ℤ) → (pos 0 ≤ℤ x) × (x ≤ℤ y) → (pos 1 ≤ℤ (x +ℤ pos 1)) × ((x +ℤ pos 1) ≤ℤ (y +ℤ pos 1))
  more x y (p, q) = (omega int_laws, omega int_laws)

  -- For nice values from -20 to 19, the time slice is at least one tick, and a nicer task never has
  -- a longer one, whatever HZ is.
  pub nice_to_ticks-antitone :
      (m n : ℤ)
      → negsuc 19 ≤ℤ m
      → m ≤ℤ n
      → n ≤ℤ pos 19
      → (pos 1 ≤ℤ nice_to_ticks n) × (nice_to_ticks n ≤ℤ nice_to_ticks m)
  unfolding nice_to_ticks
  nice_to_ticks-antitone m n lo le hi =
      let (one, order) = difference m n lo le hi in
      more (tick_scale (pos 20 -ℤ n)) (tick_scale (pos 20 -ℤ m))
        (tick_scale-Kept (pos 20 -ℤ n) (pos 20 -ℤ m) one order)
