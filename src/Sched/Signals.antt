-- ===== src/Sched/Signals.antt =====
-- Project_2/stuff/sched.c: `render_sigset_t`, which writes a set of signals in hexadecimal. The set is
-- `sigismember`, and the loop over `i` gives the characters from the highest signals on; the
-- terminating zero is left out.
pub mod Laws
mod Tests
use os_design.Prelude.{ℕ, zero, suc, ◌+◌, ◌-◌, ◌*◌, List, [], ◌∷◌, Bool, ltb, if◌then◌else◌, bit_or}

-- `if (sigismember(set, i)) x |= bit`.
abbrev pub with_bit : (ℕ → Bool) → ℕ → ℕ → ℕ → ℕ
with_bit set i bit x = if set i then bit_or x bit else x

pub nibble : (ℕ → Bool) → ℕ → ℕ
nibble set i =
    with_bit set (i + 4) 8
      (with_bit set (i + 3) 4 (with_bit set (i + 2) 2 (with_bit set (i + 1) 1 0)))

-- `(x < 10 ? '0' : 'a' - 10) + x`.
pub hex_digit : ℕ → ℕ
hex_digit x = (if ltb x 10 then 48 else 97 - 10) + x

-- The loop, for `turns` turns from `i` on.
pub render : (ℕ → Bool) → ℕ → ℕ → List ℕ
unfolding nibble hex_digit
render set zero i = []
render set (suc turns) i =
    let rest = render set turns (i - 4) in hex_digit (nibble set (i - 4)) ∷ rest

-- With `_NSIG`, a multiple of 4: the loop ends when `i` is 0.
pub render_sigset_t : (ℕ → Bool) → ℕ → List ℕ
unfolding render
render_sigset_t set turns = render set turns (4 * turns)
