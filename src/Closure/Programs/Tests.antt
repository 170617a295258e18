-- ===== src/Closure/Programs/Tests.antt =====
-- Runs of wtc_thr.c and wtc_btproc.c on one file, and the choice of a program.
use os_design.Prelude.{ℕ, ◌<◌, ◌≡◌, refl, List, [], ◌∷◌, true, some, none, replicate, arith, ◌↔◌}
use os_design.Prelude.Int.{pos, negsuc, ◌+ℤ◌, ◌*ℤ◌, ◌-ℤ◌}
use os_design.Closure.BitArray.{bit_array_create, bit_array_set}
use os_design.Closure.Walks.{Edges, Walk}
use os_design.Closure.ReadFile.{
  File, read_file, done, scan, scan_int, read_pairs, scan_pair, index, finish,
}
use os_design.Closure.ReadFile.Laws.{listed}
use os_design.Closure.Threads.{Machine, joined}
use os_design.Closure.Threads.Schedule.{run}
use os_design.Closure.Processes.Sample.{queue, cycle, both, cycle-Rounds}
use os_design.Closure.IntFile.{load_matrix, open_matrix, read_matrix, int_index, is_inside}
use os_design.Closure.Output.{print_matrix, print_matrix2}
use os_design.Closure.Output.Laws.{table}
use os_design.Closure.Programs.{
  selection, wtc_proc, wtc_thr, wtc_btproc, Run, threads_joined, queue_done,
}
use os_design.Closure.Programs.Table.{edge_file}
use os_design.Closure.Programs.Laws.{Run-Walk, programs_agree}

-- `1 2`, `1 2` and `2 1`, and a last newline.
abbrev two_nodes : File
two_nodes = edge_file 1 2 ((0, 1) ∷ (1, 0) ∷ []) true

abbrev bits : List ℕ
bits = 6 ∷ []

bits_read :
    read_file 4 (some two_nodes) ≡ done (record { threads = pos 1; nodes = pos 2; matrix = bits })
unfolding read_file scan scan_int read_pairs scan_pair index finish bit_array_create bit_array_set
    ◌+ℤ◌ ◌*ℤ◌ ◌-ℤ◌
bits_read = refl

ints_read :
    load_matrix 4 (some two_nodes) (pos 0) (pos 0) (pos 0) (pos 0) (replicate 4 0)
    ≡ done (record { threads = pos 1; nodes = pos 2; matrix = cycle })
unfolding load_matrix open_matrix scan scan_int read_matrix scan_pair int_index is_inside finish
    ◌+ℤ◌ ◌*ℤ◌ ◌-ℤ◌
ints_read = refl

abbrev last : Machine
last = (run 2 1 bits 40).last

last_joined : last.main ≡ joined
unfolding run
last_joined = refl

threads_run : Run 4 (some two_nodes) wtc_thr (print_matrix last.matrix 2)
threads_run = threads_joined bits_read (run 2 1 bits 40).reach last_joined

queue_run : Run 4 (some two_nodes) wtc_btproc (print_matrix2 (both 1 (both 0 cycle)) 2)
queue_run = queue_done (pos 0) (pos 0) (pos 0) (pos 0) queue ints_read refl refl cycle-Rounds

Run-Walk_example :
    (e : Edges) × (print_matrix last.matrix 2 ≡ table e 2)
    × ((x y : ℕ)
        → x < 2
        → y < 2
        → (e x y ≡ true) ↔ Walk 2 (λ v w. listed v w ((0, 1) ∷ (1, 0) ∷ [])) x y)
Run-Walk_example =
    Run-Walk 4 1 2 0 1 ((1, 0) ∷ []) true wtc_thr (print_matrix last.matrix 2) (omega arith)
      (omega arith) (omega arith, omega arith, (omega arith, omega arith, tt)) (omega arith) tt
      threads_run

programs_agree_example : print_matrix last.matrix 2 ≡ print_matrix2 (both 1 (both 0 cycle)) 2
programs_agree_example =
    programs_agree 4 4 1 2 0 1 ((1, 0) ∷ []) true wtc_thr wtc_btproc (print_matrix last.matrix 2)
      (print_matrix2 (both 1 (both 0 cycle)) 2) (omega arith) (omega arith)
      (omega arith, omega arith, (omega arith, omega arith, tt)) (omega arith) (omega arith) tt tt
      threads_run queue_run

selections :
    (selection (pos 1) ≡ some wtc_proc) × (selection (pos 5) ≡ none) × (selection (negsuc 0) ≡ none)
unfolding selection
selections = (refl, refl, refl)
