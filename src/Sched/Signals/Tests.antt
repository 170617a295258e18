-- ===== src/Sched/Signals/Tests.antt =====
-- The signals 2, 9 and 15 of 64.
use os_design.Prelude.{ℕ, ◌*◌, ◌≡◌, ◌||◌, ◌==◌, Bool, refl, [], ◌∷◌}
use os_design.Sched.Signals.{render, render_sigset_t, nibble, hex_digit}
use os_design.Sched.Signals.Laws.{parse_hex, set_value, parse_hex-render_sigset_t}

abbrev signals : ℕ → Bool
signals s = s == 2 || (s == 9 || s == 15)

-- "4102" at the end of twelve zeros.
first_signals : render_sigset_t signals 4 ≡ 52 ∷ 49 ∷ 48 ∷ 50 ∷ []
unfolding render_sigset_t render nibble hex_digit
first_signals = refl

parse_hex-render_sigset_t_example :
    parse_hex (render_sigset_t signals 16) 0 ≡ set_value signals (4 * 16)
parse_hex-render_sigset_t_example = parse_hex-render_sigset_t signals 16
