-- ===== src/Closure/Output.antt =====
-- Project_1/Stuff: what `print_matrix` of functions.c and `print_matrix2` of wtc_proc.c print. The
-- output is the list of its lines, and a line the list of its numbers.
pub mod Laws
use os_design.Prelude.{ℕ, zero, suc, ◌+◌, ◌*◌, List, [], ◌∷◌, ◌++◌, get_or}
use os_design.Closure.BitArray.{bit_array_get}
use os_design.Closure.Grid.{cell}

-- `for(j = 0; j < count; j++)`, and what each turn gives.
pub for_each {ℓ} : {A : Type ℓ} → (ℕ → A) → ℕ → List A
for_each f zero = []
for_each f (suc count) = for_each f count ++ f count ∷ []

pub print_matrix : List ℕ → ℕ → List (List ℕ)
unfolding for_each
print_matrix matrix n = for_each (λ i. for_each (λ j. bit_array_get matrix (cell n i j)) n) n

pub print_matrix2 : List ℕ → ℕ → List (List ℕ)
unfolding for_each
print_matrix2 matrix line_count =
    for_each (λ i. for_each (λ j. get_or matrix (i * line_count + j) 0) line_count) line_count
