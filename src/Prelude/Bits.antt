-- ===== src/Prelude/Bits.antt =====
-- The operations of C on single bits, of unsigned numbers.
use Prim.Native.Nat.{ℕ, zero, suc, ◌-◌, ◌/◌, ◌≤◌, digits, min, bit_and, bit_and-bitwise}
use mathlib.Core.Path.{◌≡◌, refl, ap, ◌∙◌}
use native.Mathlib.Omega.{arith}

abbrev low : ℕ → ℕ → ℕ → ℕ
low n a b = digits (λ x. 0) min n a b

low-le : (n a b : ℕ) → low n a b ≤ a
low-le zero a b = omega arith
low-le (suc n) zero b = omega arith
low-le (suc n) (suc a) b = ground (arith, low-le n (suc a / 2) (b / 2))

low_zero : (m b : ℕ) → low m 0 b ≡ 0
low_zero zero b = refl
low_zero (suc m) b = refl

-- What is left of a number without the bits of another has none of them.
cleared : (n a b m q : ℕ) → a ≤ n → q ≡ a - low n a b → q ≤ m → low m q b ≡ 0
cleared zero a b m q h e k = let none_left : q ≡ 0 = omega arith in rw none_left (low_zero m b)
cleared (suc n) a b zero q h e k = refl
cleared (suc n) a b (suc m) zero h e k = refl
cleared (suc n) zero b (suc m) (suc q) h e k = absurd (omega (arith, e))
cleared (suc n) (suc a) b (suc m) (suc q) h e k =
    let rest =
      cleared n (suc a / 2) (b / 2) m (suc q / 2) (omega arith)
        (omega (arith, e, low-le n (suc a / 2) (b / 2))) (omega arith) in
    omega (arith, rest, e, low-le n (suc a / 2) (b / 2))

-- `a & ~b`.
abbrev pub and_not : ℕ → ℕ → ℕ
and_not a b = a - bit_and a b

pub and_not-bit_and : (a b : ℕ) → bit_and (and_not a b) b ≡ 0
and_not-bit_and a b =
    bit_and-bitwise (and_not a b) b
    ∙ cleared a a b (and_not a b) (and_not a b) (omega arith)
        (ap (λ (x : ℕ). a - x) (bit_and-bitwise a b)) (omega arith)
