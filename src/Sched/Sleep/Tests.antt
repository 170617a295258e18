-- ===== src/Sched/Sleep/Tests.antt =====
-- Task 5 sleeps on a queue of one, while another puts its entry in front.
use os_design.Prelude.{◌≡◌, refl, ap, ◌∙◌, List, [], ◌∷◌, not, ◌&&◌, if◌then◌else◌}
use os_design.Prelude.Int.{pos, negsuc, eq_ℤ, lt_ℤ}
use os_design.Sched.Samples.{linux, shell}
use os_design.Sched.Sleep.{
  Entry, World, take_out, interruptible_sleep_on, sleep_on, interruptible_sleep_on_timeout,
  sleep_on_timeout,
}
use os_design.Sched.Sleep.Laws.{Holds, after_sleep, sleep_on_lem, take_out-between}

abbrev room : World
room = record { tasks = λ q. shell; waiting = record { address = 70; task = 4 } ∷ [] }

-- The entry at 60 comes in front.
abbrev joins : World → World
joins w = record w { waiting = record { address = 60; task = 6 } ∷ w.waiting }

abbrev left_behind : World → List Entry
left_behind w = record { address = 60; task = 6 } ∷ take_out w.waiting 80

joins-Holds :
    (w : World) (rest : List Entry) → Holds 80 5 w rest → Holds 80 5 (joins w) (left_behind w)
joins-Holds w rest p = record {
  before = record { address = 60; task = 6 } ∷ p.before;
  behind = p.behind;
  order = ap (λ (l : List Entry). record { address = 60; task = 6 } ∷ l) p.order;
  first = (refl, p.first);
  others =
      ap (λ (l : List Entry). record { address = 60; task = 6 } ∷ take_out l 80) p.order
      ∙ ap (λ (l : List Entry). record { address = 60; task = 6 } ∷ l)
          (take_out-between 80 5 p.before p.behind p.first);
}

sleep_on_lem_example :
    ((interruptible_sleep_on linux 5 80 joins room).waiting
      ≡ after_sleep linux 5 80 joins left_behind joins-Holds room 1)
    × ((sleep_on linux 5 80 joins room).waiting
        ≡ after_sleep linux 5 80 joins left_behind joins-Holds room 2)
    × ((interruptible_sleep_on_timeout linux 5 80 joins
          (pos 1000000)
          10
          20
          room
          (negsuc 3)).1.waiting
        ≡ (if not (eq_ℤ (negsuc 3) (pos 1000000)) && lt_ℤ (negsuc 3) (pos 0)
            then room.waiting
            else after_sleep linux 5 80 joins left_behind joins-Holds room 1))
    × ((sleep_on_timeout linux 5 80 joins (pos 1000000) 10 20 room (negsuc 3)).1.waiting ≡ (
        if not (eq_ℤ (negsuc 3) (pos 1000000)) && lt_ℤ (negsuc 3) (pos 0)
        then room.waiting
        else after_sleep linux 5 80 joins left_behind joins-Holds room 2))
sleep_on_lem_example =
    sleep_on_lem linux 5 80 joins left_behind joins-Holds (pos 1000000) 10 20 room (negsuc 3)
