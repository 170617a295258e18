-- ===== src/Closure/Processes/Found.antt =====
-- The matrix of `int` between two rounds, and what it says when all the rounds are over. Both
-- wtc_btproc.c and wtc_proc.c go from one such matrix to the next.
use os_design.Prelude.{ℕ, ◌*◌, ◌<◌, ◌≡◌, ◌↔◌, sym, ◌∙◌, List, true, length, arith}
use os_design.Closure.Walks.{Edges, Walk, via, via-suc, via-zero, via-Walk_iff, Between}
use os_design.Closure.Processes.Column.{entry}

-- The matrix holds what `k` rounds find.
pub record Found (e : Edges) (n k : ℕ) (m : List ℕ) : Type 0 where
  pub size : length m ≡ n * n
  pub value : (x y : ℕ) → x < n → y < n → entry n m x y ≡ via e k x y

module _ {e : Edges} {n k : ℕ} {m : List ℕ} (a : Found e n k m) where
  pub Found-Between : Between e n k (entry n m)
  Found-Between = record {
    lower = λ x y hx hy h. a.value x y hx hy ∙ h;
    upper = λ x y hx hy h. ground (arith, a.value x y hx hy, via-suc e k x y);
  }

pub Found-first : (n : ℕ) (m : List ℕ) → length m ≡ n * n → Found (entry n m) n 0 m
Found-first n m size = record { size = size; value = λ x y hx hy. sym (via-zero (entry n m) x y) }

pub Found-Walk_iff :
    {n : ℕ} {e : Edges} {m : List ℕ}
    → Found e n n m
    → (x y : ℕ) → x < n
    → y < n
    → (entry n m x y ≡ true) ↔ Walk n e x y
Found-Walk_iff {n} {e} a x y hx hy =
    let (to, from) = via-Walk_iff e n x y in
    (λ h. to (sym (a.value x y hx hy) ∙ h), λ w. a.value x y hx hy ∙ from w)
