-- ===== src/Sched/Signals/Laws.antt =====
-- What the characters say.
use os_design.Prelude.{
  ℕ, zero, suc, ◌+◌, ◌-◌, ◌*◌, ◌^◌, ◌<◌, ◌≡◌, refl, ap, ◌∙◌, List, [], ◌∷◌, Bool, true, false, ltb,
  if◌then◌else◌, bit_or, arith,
}
use native.Mathlib.Numerals.{unary_clauses}
use os_design.Sched.Signals.{nibble, hex_digit, render, render_sigset_t}

-- A character of a hexadecimal number, and a string of them.
abbrev pub digit_value : ℕ → ℕ
digit_value c = if ltb c 58 then c - 48 else c - 87

pub parse_hex : List ℕ → ℕ → ℕ
parse_hex [] n = n
parse_hex (c ∷ cs) n = parse_hex cs (16 * n + digit_value c)

-- The number whose bit `s` is set when signal `s + 1` is in the set.
pub set_value : (ℕ → Bool) → ℕ → ℕ
set_value set zero = 0
set_value set (suc s) = (if set (suc s) then 2 ^ s else 0) + set_value set s

hex_digit-value : (x : ℕ) → x < 16 → digit_value (hex_digit x) ≡ x
unfolding hex_digit
hex_digit-value x lt = ground arith

abbrev bit : Bool → ℕ → ℕ
bit b n = if b then n else 0

nibble-bits :
    (set : ℕ → Bool) (i : ℕ)
    → nibble set i
      ≡ bit (set (i + 1)) 1 + bit (set (i + 2)) 2 + bit (set (i + 3)) 4 + bit (set (i + 4)) 8
unfolding nibble
nibble-bits set i = four (set (i + 1)) (set (i + 2)) (set (i + 3)) (set (i + 4))
  where
    four :
        (a b c d : Bool)
        → (let x : ℕ = if a then bit_or 0 1 else 0 in
            let y : ℕ = if b then bit_or x 2 else x in
            let z : ℕ = if c then bit_or y 4 else y in if d then bit_or z 8 else z)
          ≡ bit a 1 + bit b 2 + bit c 4 + bit d 8
    four true true true true = refl
    four true true true false = refl
    four true true false true = refl
    four true true false false = refl
    four true false true true = refl
    four true false true false = refl
    four true false false true = refl
    four true false false false = refl
    four false true true true = refl
    four false true true false = refl
    four false true false true = refl
    four false true false false = refl
    four false false true true = refl
    four false false true false = refl
    four false false false true = refl
    four false false false false = refl

nibble-lt : (set : ℕ → Bool) (i : ℕ) → nibble set i < 16
nibble-lt set i = rw (nibble-bits set i) (ground arith)

weights :
    (a b c d : Bool) (p v : ℕ)
    → bit d (p * 2 * 2 * 2) + (bit c (p * 2 * 2) + (bit b (p * 2) + (bit a p + v)))
      ≡ (bit a 1 + bit b 2 + bit c 4 + bit d 8) * p + v
weights a b c d p v = ground arith

-- Four signals more.
set_value_four :
    (set : ℕ → Bool) (j : ℕ)
    → set_value set (suc (suc (suc (suc j)))) ≡ nibble set j * 2 ^ j + set_value set j
unfolding set_value
set_value_four set j =
    let at1 : set (j + 1) ≡ set (suc j) = ap set (omega arith) in
    let at2 : set (j + 2) ≡ set (suc (suc j)) = ap set (omega arith) in
    let at3 : set (j + 3) ≡ set (suc (suc (suc j))) = ap set (omega arith) in
    let at4 : set (j + 4) ≡ set (suc (suc (suc (suc j)))) = ap set (omega arith) in
    rw (nibble-bits set j, at1, at2, at3, at4)
      (simp unary_clauses (
        weights (set (suc j)) (set (suc (suc j))) (set (suc (suc (suc j))))
          (set (suc (suc (suc (suc j))))) (2 ^ j) (set_value set j)))

more_digits :
    (set : ℕ → Bool) (j n i : ℕ)
    → i ≡ suc (suc (suc (suc j)))
    → (16 * n + nibble set j) * 2 ^ j + set_value set j ≡ n * 2 ^ i + set_value set i
more_digits set j n i e = rw (e, set_value_four set j) (simp unary_clauses (grind arith))

parse_hex-render :
    (set : ℕ → Bool) (turns i n : ℕ)
    → i ≡ 4 * turns
    → parse_hex (render set turns i) n ≡ n * 2 ^ i + set_value set i
unfolding parse_hex render set_value
parse_hex-render set zero i n e = rw e (omega arith)
parse_hex-render set (suc turns) i n e =
    ap (λ (x : ℕ). parse_hex (render set turns (i - 4)) (16 * n + x))
      (hex_digit-value (nibble set (i - 4)) (nibble-lt set (i - 4)))
    ∙ parse_hex-render set turns (i - 4) (16 * n + nibble set (i - 4)) (omega arith)
    ∙ more_digits set (i - 4) n i (omega arith)

-- The string that `render_sigset_t` writes for `4 * turns` signals, read as a hexadecimal number, is
-- the number whose bit `s` is set exactly when signal `s + 1` is in the set.
pub parse_hex-render_sigset_t :
    (set : ℕ → Bool) (turns : ℕ)
    → parse_hex (render_sigset_t set turns) 0 ≡ set_value set (4 * turns)
unfolding render_sigset_t
parse_hex-render_sigset_t set turns = parse_hex-render set turns (4 * turns) 0 refl ∙ omega arith
