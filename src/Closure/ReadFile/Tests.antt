-- ===== src/Closure/ReadFile/Tests.antt =====
-- Files of a graph with three nodes.
use os_design.Prelude.{
  ℕ, suc, ◌<◌, ◌≡◌, List, [], ◌∷◌, true, false, some, arith, replicate, ◌==◌, if◌then◌else◌,
}
use os_design.Prelude.Int.{pos}
use os_design.Closure.Grid.{IsGrid, entry}
use os_design.Closure.BitArray.{bit_array_get, bit_array_set, bit_array_create}
use os_design.Closure.BitArray.Laws.{get-set, bit_array_create-IsBytes, length-bit_array_create}
use os_design.Closure.ReadFile.{num, open_file, done, fault, read_file, read_pairs}
use os_design.Closure.ReadFile.Laws.{listed, edge_words, read_file-listed}
use os_design.Closure.ReadFile.Errors.{read_pairs_zero}

read_file-listed_example :
    (out : List ℕ) × (read_file 4
        (some (open_file (num (pos 2) ∷ num (pos 3) ∷ edge_words ((0, 1) ∷ (1, 2) ∷ [])) true))
      ≡ done (record { threads = pos 2; nodes = pos 3; matrix = out }))
    × IsGrid 3 out
    × ((x y : ℕ) → x < 3 → y < 3 → entry 3 out x y ≡ listed x y ((0, 1) ∷ (1, 2) ∷ []))
read_file-listed_example =
    read_file-listed 4 2 3 0 1 ((1, 2) ∷ []) true (omega arith)
      (omega arith, omega arith, (omega arith, omega arith, tt)) (omega arith)

read_pairs_zero_example :
    read_pairs
      (suc 3)
      (pos 3)
      (replicate 2 0)
      (pos 0)
      (pos 0)
      (record { left = num (pos 0) ∷ num (pos 2) ∷ []; trailing = true; eof = false })
    ≡ fault
read_pairs_zero_example =
    read_pairs_zero 3 3 2 [] true (pos 0) (pos 0) (replicate 2 0) (omega arith) (omega arith)
      (omega arith) (omega arith)

get-set_example :
    bit_array_get (bit_array_set (bit_array_create 20) 13) 9
    ≡ (if 13 == 9 then 1 else bit_array_get (bit_array_create 20) 9)
get-set_example =
    get-set (bit_array_create 20) 13 9 (bit_array_create-IsBytes 20)
      (omega (arith, length-bit_array_create 20))
