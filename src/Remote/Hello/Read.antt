-- ===== src/Remote/Hello/Read.antt =====
-- What `network_read` returns, and how reads of one file fit together.
use os_design.Prelude.{
  ℕ, zero, suc, ◌+◌, ◌-◌, ◌%◌, ◌^◌, ◌<◌, ◌≤◌, ◌≡◌, ◌≢◌, refl, sym, ap, ◌∙◌, List, [], ◌∷◌, ◌++◌,
  true, inl, inr, Bool-cases, ltb, length, arith,
}
use native.Mathlib.Numerals.{unary_clauses}
use os_design.Prelude.Int.{ℤ, pos}
use os_design.Remote.Hello.{
  Result, returns, enoent, Modes, same_string, hello_str, hello_path, network_getattr, bytes_from,
  network_read,
}

-- `strcmp` tells two strings apart.
pub same_string_refl : (s : List ℕ) → same_string s s ≡ true
unfolding same_string
same_string_refl [] = refl
same_string_refl (a ∷ xs) = ground (arith, same_string_refl xs)

same_string-≡ : (s t : List ℕ) → same_string s t ≡ true → s ≡ t
unfolding same_string
same_string-≡ [] [] e = refl
same_string-≡ [] (b ∷ bs) e = cc
same_string-≡ (a ∷ xs) [] e = cc
same_string-≡ (a ∷ xs) (b ∷ bs) e = ground (arith, same_string-≡ xs bs)

pub bytes_from_none : (s : List ℕ) (o : ℕ) → bytes_from s o 0 ≡ []
unfolding bytes_from
bytes_from_none [] o = refl
bytes_from_none (b ∷ bs) zero = refl
bytes_from_none (b ∷ bs) (suc o) = bytes_from_none bs o

-- A read of `m` bytes and the next one of `n` are one of `m + n`.
pub split_at :
    (s : List ℕ) (o m n q r : ℕ)
    → q ≡ o + m
    → r ≡ m + n
    → bytes_from s o m ++ bytes_from s q n ≡ bytes_from s o r
unfolding bytes_from
split_at [] o m n q r e f = refl
split_at (b ∷ bs) zero zero n q r e f =
    let q0 : q ≡ zero = omega arith in let rn : r ≡ n = omega arith in rw q0 (rw rn refl)
split_at (b ∷ bs) zero (suc m) n zero r e f = absurd (omega arith)
split_at (b ∷ bs) zero (suc m) n (suc q) zero e f = absurd (omega arith)
split_at (b ∷ bs) zero (suc m) n (suc q) (suc r) e f =
    ap (λ (l : List ℕ). b ∷ l) (split_at bs zero m n q r (omega arith) (omega arith))
split_at (b ∷ bs) (suc o) m n zero r e f = absurd (omega arith)
split_at (b ∷ bs) (suc o) m n (suc q) r e f = split_at bs o m n q r (omega arith) f

pub bytes_from-split :
    (s : List ℕ) (o m n : ℕ) → bytes_from s o m ++ bytes_from s (o + m) n ≡ bytes_from s o (m + n)
bytes_from-split s o m n = split_at s o m n (o + m) (m + n) refl refl

-- Past the end nothing is read, and a longer read gives the same bytes.
pub bytes_from-past : (s : List ℕ) (o n : ℕ) → length s ≤ o → bytes_from s o n ≡ []
unfolding bytes_from
bytes_from-past [] o n le = refl
bytes_from-past (b ∷ bs) zero n le = absurd (omega arith)
bytes_from-past (b ∷ bs) (suc o) n le = bytes_from-past bs o n (omega arith)

pub bytes_from-cut :
    (s : List ℕ) (o n : ℕ) → length s ≤ o + n → bytes_from s o (length s - o) ≡ bytes_from s o n
unfolding bytes_from
bytes_from-cut [] o n le = refl
bytes_from-cut (b ∷ bs) zero zero le = absurd (omega arith)
bytes_from-cut (b ∷ bs) zero (suc n) le =
    simp unary_clauses
      (ap (λ (l : List ℕ). b ∷ l) (simp unary_clauses at (bytes_from-cut bs zero n (omega arith))))
bytes_from-cut (b ∷ bs) (suc o) n le = simp unary_clauses (bytes_from-cut bs o n (omega arith))

pub length-bytes_from : (s : List ℕ) (o n : ℕ) → o + n ≤ length s → length (bytes_from s o n) ≡ n
unfolding bytes_from
length-bytes_from [] o n le = omega arith
length-bytes_from (b ∷ bs) zero zero le = refl
length-bytes_from (b ∷ bs) zero (suc n) le = ap suc (length-bytes_from bs zero n (omega arith))
length-bytes_from (b ∷ bs) (suc o) n le = length-bytes_from bs o n (omega arith)

abbrev pub max_size : ℕ
max_size = 2 ^ 64

thirteen : bytes_from hello_str 0 13 ≡ hello_str
unfolding bytes_from
thirteen = refl

bytes_from_all : (m : ℕ) → 13 ≤ m → bytes_from hello_str 0 m ≡ hello_str
bytes_from_all m le = sym (bytes_from-cut hello_str 0 m (omega arith)) ∙ thirteen

with_length :
    (n : ℕ) (d e : List ℕ)
    → d ≡ e
    → length d ≡ n
    → ◌≡◌ {A = Result × List ℕ} (returns n, d) (returns (length e), e)
with_length n d e same l =
    ap (λ (i : ℕ). (returns i, d)) (sym l) ∙ ap (λ (x : List ℕ). (returns (length x), x)) same

read_hello :
    (size from : ℕ)
    → from + size < max_size
    → network_read hello_path size (pos from)
      ≡ (returns (length (bytes_from hello_str from size)), bytes_from hello_str from size)
unfolding network_read same_string
read_hello size from lt =
    let small : from % 2 ^ 64 ≡ from = omega arith in
    let sum : (from + size) % 2 ^ 64 ≡ from + size = omega arith in
    elim (Bool-cases (ltb from 13)) [
      | inr p ↦
          let none_left = bytes_from-past hello_str from size (ground arith) in
          rw small (rw p (with_length 0 [] (bytes_from hello_str from size) (sym none_left) refl))
      | inl p ↦ elim (Bool-cases (ltb 13 (from + size))) [
        | inl q ↦ rw small (
            rw p (
              rw sum (
                rw q (
                  with_length (13 - from) (bytes_from hello_str from (13 - from))
                    (bytes_from hello_str from size)
                    (bytes_from-cut hello_str from size (ground arith))
                    (length-bytes_from hello_str from (13 - from) (ground arith))))))
        | inr q ↦ rw small (
            rw p (
              rw sum (
                rw q (
                  with_length size (bytes_from hello_str from size) (bytes_from hello_str from size)
                    refl (length-bytes_from hello_str from size (ground arith))))))
      ]
    ]

read_other :
    (path : List ℕ) (size : ℕ) (offset : ℤ)
    → path ≢ hello_path
    → network_read path size offset ≡ (enoent, [])
unfolding network_read
read_other path size offset ne = elim (Bool-cases (same_string path hello_path)) [
  | inl e ↦ absurd (ne (same_string-≡ path hello_path e))
  | inr e ↦ rw e refl
]

abbrev pub data_of : Result × List ℕ → List ℕ
data_of r = r.1

whole_file :
    (md : Modes) (o m : ℕ)
    → o ≡ 0
    → 13 ≤ m
    → (bytes_from hello_str o m ≡ hello_str)
      × ((network_getattr md hello_path).1.st_size ≡ length (bytes_from hello_str o m))
unfolding network_getattr same_string
whole_file md o m start whole =
    let all : bytes_from hello_str o m ≡ hello_str = rw start (bytes_from_all m whole) in
    (all, ap (λ (l : List ℕ). length l) (sym all))

-- Reads of the one file with no overflow of `offset + size`: a call returns the number of bytes that it
-- wrote; two reads, the second from where the first was to end, write together what one read of both
-- sizes writes; and a read of the whole file writes `st_size` bytes as `network_getattr` gives it.
pub network_read-split :
    (md : Modes) (o m n : ℕ)
    → o + (m + n) < max_size
    → ((network_read hello_path m (pos o)).0
        ≡ returns (length (data_of (network_read hello_path m (pos o)))))
      × (data_of (network_read hello_path m (pos o))
            ++ data_of (network_read hello_path n (pos (o + m)))
          ≡ data_of (network_read hello_path (m + n) (pos o)))
      × (o ≡ 0
          → 13 ≤ m
          → (data_of (network_read hello_path m (pos o)) ≡ hello_str)
            × ((network_getattr md hello_path).1.st_size
                ≡ length (data_of (network_read hello_path m (pos o)))))
network_read-split md o m n lt =
    let first = read_hello m o (omega arith) in
    let second = read_hello n (o + m) (omega arith) in
    let both = read_hello (m + n) o lt in
    rw first (
      rw second (
        rw both
          (refl, bytes_from-split hello_str o m n, λ start whole. whole_file md o m start whole)))

pub bytes_from_whole : (s : List ℕ) (m : ℕ) → length s ≤ m → bytes_from s 0 m ≡ s
unfolding bytes_from
bytes_from_whole [] m le = refl
bytes_from_whole (b ∷ bs) zero le = absurd (omega arith)
bytes_from_whole (b ∷ bs) (suc m) le =
    ap (λ (l : List ℕ). b ∷ l) (bytes_from_whole bs m (omega arith))

pub bytes_from-prefix : (xs ys : List ℕ) (n : ℕ) → n ≡ length xs → bytes_from (xs ++ ys) 0 n ≡ xs
unfolding bytes_from
bytes_from-prefix [] [] n e = refl
bytes_from-prefix [] (y ∷ ys) zero e = refl
bytes_from-prefix [] (y ∷ ys) (suc n) e = absurd (omega arith)
bytes_from-prefix (x ∷ xs) ys zero e = absurd (omega arith)
bytes_from-prefix (x ∷ xs) ys (suc n) e =
    ap (λ (l : List ℕ). x ∷ l) (bytes_from-prefix xs ys n (omega arith))
