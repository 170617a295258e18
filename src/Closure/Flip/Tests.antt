-- ===== src/Closure/Flip/Tests.antt =====
-- Two children in the only round: both are counted, and the parent has turned the flag.
use os_design.Prelude.{ℕ, ◌+◌, ◌<◌, ◌≤◌, ◌≡◌, refl, arith}
use os_design.Closure.Flip.{
  gone, ended, Shared, start, arrive, flip, arrives, flips, Reach, here, next, Run,
}
use os_design.Closure.Flip.Laws.{rounds_done, flip_lem}
use os_design.Closure.Flip.Ends.{flip-ends}

abbrev turned : Shared
turned = flip 2 (arrive 1 (arrive 0 (start 1 2)))

turned-Reach : Reach 1 2 turned
unfolding start arrive flip os_design.Prelude.ℕ_discrete
turned-Reach =
    next
      (next (next here (arrives (start 1 2) 0 (omega arith) refl))
        (arrives (arrive 0 (start 1 2)) 1 (omega arith) refl))
      (flips (arrive 1 (arrive 0 (start 1 2))) refl)

-- The flag is up and the count is 0 again.
flag_up : (turned.cont ≡ 1) × (turned.b_count ≡ 0)
unfolding start arrive flip
flag_up = (refl, refl)

flip_lem_example :
    ((p q : ℕ)
      → p < 2
      → q < 2
      → (turned.child p).k ≤ rounds_done (turned.child q).pc (turned.child q).k)
    × (turned.parent ≡ ended
        → (q : ℕ) → q < 2
        → ((turned.child q).pc ≡ gone) × ((turned.child q).k ≡ 1))
flip_lem_example = flip_lem 1 2 turned turned-Reach

flip-ends_example : (u : Shared) × Run 1 2 turned u × (u.parent ≡ ended)
flip-ends_example = flip-ends 1 2 turned (omega arith) turned-Reach
