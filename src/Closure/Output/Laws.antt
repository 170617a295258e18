-- ===== src/Closure/Output/Laws.antt =====
-- Lines that are printed from equal entries.
use os_design.Prelude.{
  ℕ, zero, suc, ◌+◌, ◌*◌, ◌<◌, ◌≤◌, ◌≡◌, refl, ap, ◌∙◌, List, [], ◌∷◌, ◌++◌, Bool, if◌then◌else◌,
  get_or, arith,
}
use os_design.Closure.Grid.{cell, get-entry}
use os_design.Closure.Grid
use os_design.Closure.Walks.{Edges}
use os_design.Closure.Processes.Column.{entry}
use os_design.Closure.Output.{for_each, print_matrix, print_matrix2}

-- The table of a graph: 1 where there is an edge.
pub table : Edges → ℕ → List (List ℕ)
unfolding for_each
table e n = for_each (λ i. for_each (λ j. if e i j then 1 else 0) n) n

for_each-same {ℓ} :
    {A : Type ℓ} (f g : ℕ → A) (n : ℕ) → ((i : ℕ) → i < n → f i ≡ g i) → for_each f n ≡ for_each g n
unfolding for_each
for_each-same f g zero same = refl
for_each-same {A} f g (suc n) same =
    ap (λ (l : List A). l ++ f n ∷ []) (for_each-same f g n (λ i lt. same i (omega arith)))
    ∙ ap (λ (a : A). for_each g n ++ a ∷ []) (same n (omega arith))

-- Both programs print the table of the entries.
pub print_matrix-table :
    (e : Edges) (n : ℕ) (m : List ℕ)
    → ((i j : ℕ) → i < n → j < n → Grid.entry n m i j ≡ e i j)
    → print_matrix m n ≡ table e n
unfolding print_matrix table
print_matrix-table e n m same = for_each-same _ _ n (λ i hi.
    for_each-same _ _ n
      (λ j hj. get-entry n m i j ∙ ap (λ (b : Bool). if b then 1 else 0) (same i j hi hj)))

-- The numbers of the matrix are 0 and 1.
abbrev pub IsBits : List ℕ → Type 0
IsBits m = (p : ℕ) → get_or m p 0 ≤ 1

bit_entry :
    (e : Edges) (n : ℕ) (m : List ℕ) (i j : ℕ)
    → IsBits m
    → entry n m i j ≡ e i j
    → get_or m (i * n + j) 0 ≡ (if e i j then 1 else 0)
bit_entry e n m i j bits same =
    let swap : j + i * n ≡ i * n + j = omega arith in
    ground (arith, rw swap at same, bits (i * n + j))

pub print_matrix2-table :
    (e : Edges) (n : ℕ) (m : List ℕ)
    → IsBits m
    → ((i j : ℕ) → i < n → j < n → entry n m i j ≡ e i j)
    → print_matrix2 m n ≡ table e n
unfolding print_matrix2 table
print_matrix2-table e n m bits same =
    for_each-same _ _ n
      (λ i hi. for_each-same _ _ n (λ j hj. bit_entry e n m i j bits (same i j hi hj)))
