-- ===== src/Sched/Goodness/Tests.antt =====
-- The theorems on `goodness` at two tasks.
use os_design.Prelude.{ℕ, ◌≡◌, ◌≢◌, ◌&&◌, ◌==◌, refl, true, false, none, some}
use os_design.Prelude.Int.{pos, negsuc, ◌+ℤ◌, ◌-ℤ◌, ◌≤ℤ◌, ◌<ℤ◌}
use os_design.Sched.Samples.{linux, shell, shell-IsSane}
use os_design.Sched.Goodness.{yields, goodness, near, lazy}
use os_design.Sched.Goodness.Laws.{goodness_bands}

goodness-shell : goodness linux true shell 0 (some 100) ≡ pos 42
unfolding goodness near lazy ◌+ℤ◌ ◌-ℤ◌
goodness-shell = refl

goodness_bands_example :
    (yields linux true shell ≡ true → goodness linux true shell 0 none ≡ negsuc 0)
    × (yields linux true shell ≡ false
        → ◌≡◌ {A = ℕ} 0 0
        → pos 6 ≡ pos 0
        → goodness linux true shell 0 none ≡ pos 0)
    × (yields linux true shell ≡ false
        → ◌≡◌ {A = ℕ} 0 0
        → pos 0 <ℤ pos 6
        → (pos 6 <ℤ goodness linux true shell 0 none)
          × (goodness linux true shell 0 none ≤ℤ pos 6 +ℤ pos 56)
          × ((true && (shell.processor == 0)) ≡ true
              → pos 6 +ℤ pos linux.proc_change_penalty <ℤ goodness linux true shell 0 none)
          × ((true && (shell.processor == 0)) ≡ false
              → goodness linux true shell 0 none ≤ℤ pos 6 +ℤ pos 41))
    × (yields linux true shell ≡ false
        → ◌≢◌ {A = ℕ} 0 0
        → goodness linux true shell 0 none ≡ pos 1000)
goodness_bands_example = goodness_bands linux true shell 0 none shell-IsSane
