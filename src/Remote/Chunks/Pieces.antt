-- ===== src/Remote/Chunks/Pieces.antt =====
-- The pieces of a file that short and full reads give.
use os_design.Prelude.{
  ℕ, zero, suc, ◌+◌, ◌<◌, ◌≤◌, ◌≡◌, refl, sym, ap, ◌∙◌, List, [], ◌∷◌, ◌++◌, length, length-append,
  arith,
}
use os_design.Remote.Hello.{bytes_from}
use os_design.Remote.Chunks.{finished}
use os_design.Remote.Hello.Read.{bytes_from-cut}

pub length-bytes_from_le : (s : List ℕ) (o n : ℕ) → length (bytes_from s o n) ≤ n
unfolding bytes_from
length-bytes_from_le [] o n = omega arith
length-bytes_from_le (b ∷ bs) zero zero = omega arith
length-bytes_from_le (b ∷ bs) zero (suc n) = omega (arith, length-bytes_from_le bs zero n)
length-bytes_from_le (b ∷ bs) (suc o) n = length-bytes_from_le bs o n

-- A short read has met the end of the file.
short_end : (s : List ℕ) (o n : ℕ) → length (bytes_from s o n) < n → length s ≤ o + n
unfolding bytes_from
short_end [] o n lt = omega arith
short_end (b ∷ bs) zero zero lt = absurd (omega arith)
short_end (b ∷ bs) zero (suc n) lt = omega (arith, short_end bs zero n (omega arith))
short_end (b ∷ bs) (suc o) n lt = omega (arith, short_end bs o n lt)

pub short_whole :
    (s : List ℕ) (o n m : ℕ)
    → length (bytes_from s o n) < n
    → n ≤ m
    → bytes_from s o n ≡ bytes_from s o m
short_whole s o n m lt le =
    let end = short_end s o n lt in
    sym (bytes_from-cut s o n end) ∙ bytes_from-cut s o m (omega arith)

append_assoc : (xs ys zs : List ℕ) → (xs ++ ys) ++ zs ≡ xs ++ (ys ++ zs)
append_assoc [] ys zs = refl
append_assoc (x ∷ xs) ys zs = ap (λ (l : List ℕ). x ∷ l) (append_assoc xs ys zs)

pub gather :
    (total : ℕ) (buf xs ys zs : List ℕ)
    → xs ++ ys ≡ zs
    → finished (total + length xs + length ys) ((buf ++ xs) ++ ys)
      ≡ finished (total + length zs) (buf ++ zs)
gather total buf xs ys zs e =
    let count : total + length xs + length ys ≡ total + length zs =
      omega (arith, length-append xs ys, ap (λ (l : List ℕ). length l) e) in
    let all : (buf ++ xs) ++ ys ≡ buf ++ zs =
      append_assoc buf xs ys ∙ ap (λ (l : List ℕ). buf ++ l) e in
    rw count (rw all refl)
