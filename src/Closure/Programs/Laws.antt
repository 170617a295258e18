-- ===== src/Closure/Programs/Laws.antt =====
-- The runs of the four programs on one file.
use os_design.Prelude.{
  ℕ, ◌+◌, ◌*◌, ◌/◌, ◌<◌, ◌≡◌, ◌^◌, sym, ◌∙◌, List, ◌∷◌, Bool, true, some, length, ◌↔◌,
}
use os_design.Closure.Walks.{Edges, Walk, via, via-Walk_iff}
use os_design.Closure.ReadFile.Laws.{IsListed, listed}
use os_design.Closure.Output.Laws.{table}
use os_design.Closure.Programs.{Program, Run}
use os_design.Closure.Programs.Table.{edge_file, joins, Suits, Run-table}

-- A file of two counts and one edge or more, with both ends of each edge from 1 to the number of
-- nodes. However a run of one of the four programs interleaves, it prints the table of the pairs of
-- nodes that a path of the listed edges joins. For wtc_btthr.c there are 11 nodes. The number of nodes is a multiple of the
-- number of threads or processes and its square is below 2 ^ 31, and there is fuel for three turns
-- of the loop over the file besides those for the edges after the first.
pub Run-Walk :
    (fuel t n i j : ℕ) (es : List (ℕ × ℕ)) (trailing : Bool) (p : Program) (shown : List (List ℕ))
    → n * n < 2 ^ 31
    → t * (n / t) ≡ n
    → IsListed n ((i, j) ∷ es)
    → length es + 2 < fuel
    → Suits p n
    → Run fuel (some (edge_file t n ((i, j) ∷ es) trailing)) p shown
    → (e : Edges) × (shown ≡ table e n)
      × ((x y : ℕ) → x < n → y < n → (e x y ≡ true) ↔ Walk n (λ v w. listed v w ((i, j) ∷ es)) x y)
Run-Walk fuel t n i j es trailing p shown small even listing enough suits r = (
  via (joins ((i, j) ∷ es)) n,
  Run-table fuel t n i j es trailing small even listing enough suits r,
  λ x y hx hy. via-Walk_iff (joins ((i, j) ∷ es)) n x y,
)

-- Any two runs of the four programs on one file print the same, whatever the programs and the
-- schedules, where there are 11 nodes if one of them is wtc_btthr.c. Both ends of each edge are
-- nodes, the number of nodes is a multiple of the other count and its square is below 2 ^ 31, and
-- there is fuel for the file in both runs.
pub programs_agree :
    (fuel fuel' t n i j : ℕ) (es : List (ℕ × ℕ)) (trailing : Bool) (p q : Program)
    (shown shown' : List (List ℕ))
    → n * n < 2 ^ 31
    → t * (n / t) ≡ n
    → IsListed n ((i, j) ∷ es)
    → length es + 2 < fuel
    → length es + 2 < fuel'
    → Suits p n
    → Suits q n
    → Run fuel (some (edge_file t n ((i, j) ∷ es) trailing)) p shown
    → Run fuel' (some (edge_file t n ((i, j) ∷ es) trailing)) q shown'
    → shown ≡ shown'
programs_agree fuel fuel' t n i j es trailing p q shown shown' small even listing enough enough'
      suits suits' r r' =
    Run-table fuel t n i j es trailing small even listing enough suits r
    ∙ sym (Run-table fuel' t n i j es trailing small even listing enough' suits' r')
