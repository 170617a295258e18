-- ===== src/Prelude/Sums.antt =====
-- Sums of a number for each thread or process.
use Prim.Native.Nat.{ℕ, zero, suc, ◌+◌, ◌<◌, ◌≤◌}
use mathlib.Core.Path.{◌≡◌, refl, sym, subst}
use mathlib.Core.Logic.{◌≢◌, ◌⊎◌, inl, inr}
use native.Mathlib.Omega.{arith}
use native.Mathlib.Decide.{ℕ_discrete}

-- The sum over the first `ts`.
pub total : (ℕ → ℕ) → ℕ → ℕ
total f zero = 0
total f (suc ts) = total f ts + f ts

total_same : (f g : ℕ → ℕ) (ts : ℕ) → ((u : ℕ) → u < ts → g u ≡ f u) → total g ts ≡ total f ts
unfolding total
total_same f g zero same = refl
total_same f g (suc ts) same =
    omega (arith, total_same f g ts (λ u lt. same u (omega arith)), same ts (omega arith))

-- One number changes.
pub total_change :
    (f g : ℕ → ℕ) (t ts : ℕ)
    → t < ts
    → ((u : ℕ) → t ≢ u → g u ≡ f u)
    → total g ts + f t ≡ total f ts + g t
unfolding total
total_change f g t zero lt others = absurd (omega arith)
total_change f g t (suc ts) lt others = elim (ℕ_discrete t ts) [
  | yes same ↦
      let rest = total_same f g ts (λ u h. others u (λ e. absurd (omega (arith, e, same, h)))) in
      rw same (omega (arith, rest))
  | no other ↦ omega (arith, total_change f g t ts (omega arith) others, others ts other)
]

pub total-le : (f : ℕ → ℕ) (ts : ℕ) → ((u : ℕ) → f u ≤ 1) → total f ts ≤ ts
unfolding total
total-le f zero small = omega arith
total-le f (suc ts) small = omega (arith, total-le f ts small, small ts)

pub total_zero : (f : ℕ → ℕ) (ts : ℕ) → ((u : ℕ) → u < ts → f u ≡ 0) → total f ts ≡ 0
unfolding total
total_zero f zero none = refl
total_zero f (suc ts) none =
    omega (arith, total_zero f ts (λ u lt. none u (omega arith)), none ts (omega arith))

-- A sum that is as large as it can be.
pub total-full :
    (f : ℕ → ℕ) (ts : ℕ) → ((u : ℕ) → f u ≤ 1) → total f ts ≡ ts → (u : ℕ) → u < ts → f u ≡ 1
unfolding total
total-full f zero small full u lt = absurd (omega arith)
total-full f (suc ts) small full u lt =
    let most = total-le f ts small in
    elim (ℕ_discrete u ts) [
      | yes same ↦ rw same (omega (arith, most, small ts))
      | no other ↦ total-full f ts small (omega (arith, most, small ts)) u (omega (arith, other))
    ]

pub total_ones : (f : ℕ → ℕ) (ts : ℕ) → ((u : ℕ) → u < ts → f u ≡ 1) → total f ts ≡ ts
unfolding total
total_ones f zero ones = refl
total_ones f (suc ts) ones =
    omega (arith, total_ones f ts (λ u lt. ones u (omega arith)), ones ts (omega arith))

-- Either some of the first `ts` are of one kind, or all of them are of the other.
pub some-or-all :
    {A B : ℕ → Type 0} (ts : ℕ)
    → ((u : ℕ) → u < ts → A u ⊎ B u)
    → ((u : ℕ) × (u < ts) × A u) ⊎ ((u : ℕ) → u < ts → B u)
some-or-all zero each = inr (λ u lt. absurd (omega arith))
some-or-all {A = A} {B = B} (suc ts) each =
    elim (some-or-all {A = A} {B = B} ts (λ u lt. each u (omega arith))) [
      | inl (u, lt, a) ↦ inl (u, omega arith, a)
      | inr all ↦ elim (each ts (omega arith)) [
        | inl a ↦ inl (ts, omega arith, a)
        | inr b ↦ inr (λ u lt. elim (ℕ_discrete u ts) [
          | yes same ↦ subst B (sym same) b
          | no other ↦ all u (omega (arith, other))
        ])
      ]
    ]
