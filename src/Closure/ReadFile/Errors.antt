-- ===== src/Closure/ReadFile/Errors.antt =====
-- Where `read_file` of functions.c stops, or writes outside the matrix.
use os_design.Prelude.{
  ℕ, suc, ◌+◌, ◌*◌, ◌/◌, ◌^◌, ◌<◌, ◌≤◌, ◌≡◌, refl, List, [], ◌∷◌, Bool, true, false, ltb, length,
  some, arith, ◌⊎◌, dec_lt,
}
use os_design.Prelude.Int.{ℤ, pos, negsuc, ◌+ℤ◌, ◌-ℤ◌, ◌*ℤ◌}
use os_design.Closure.BitArray.{bit_array_create}
use os_design.Closure.BitArray.Laws.{length-bit_array_create}
use os_design.Closure.ReadFile.{
  Word, num, open_file, scan_int, scan, scan_pair, exited, fault, index, read_pairs, finish,
  read_file,
}
use os_design.Closure.ReadFile.Laws.{size-eq}

-- An end of an edge above the number of nodes ends the program by `err_exit`.
pub read_pairs-exited :
    (fuel n a b : ℕ) (ws : List Word) (trailing : Bool) (x y : ℤ) (m : List ℕ)
    → (n < a) ⊎ (n < b)
    → read_pairs
        (suc fuel)
        (pos n)
        m
        x
        y
        (record { left = num (pos a) ∷ num (pos b) ∷ ws; trailing = trailing; eof = false })
      ≡ exited
unfolding read_pairs scan_pair scan scan_int
read_pairs-exited fuel n a b [] trailing x y m h = ground arith
read_pairs-exited fuel n a b (w ∷ ws) trailing x y m h = ground arith

node-lt : (n : ℕ) → n * n < 2 ^ 31 → n < 2 ^ 16
node-lt n small = elim (dec_lt n (2 ^ 16)) [ yes h ↦ h | no h ↦ absurd (grind arith) ]

times_minus_one : (n : ℕ) → negsuc 0 *ℤ pos n ≡ pos 0 -ℤ pos n
unfolding ◌*ℤ◌ ◌-ℤ◌
times_minus_one n = ground arith

-- A first end of 0 gives a negative index, which wraps to the top of `unsigned`.
index_zero : (n b : ℕ) → n < 2 ^ 16 → b ≤ n → index (pos n) (pos 0) (pos b) + n + 1 ≡ 2 ^ 32 + b
unfolding index
index_zero n b small hi = rw (minus_one, times_minus_one n) (unfold ◌-ℤ◌ ◌+ℤ◌ in ground arith)
  where
    minus_one : pos 0 -ℤ pos 1 ≡ negsuc 0
    minus_one = unfold ◌-ℤ◌ in refl

index_zero-outside :
    (n b : ℕ) (m : List ℕ)
    → 8 * length m ≤ n * n + 8
    → n * n < 2 ^ 31
    → b ≤ n
    → ltb (index (pos n) (pos 0) (pos b) / 8) (length m) ≡ false
index_zero-outside n b m room small hi =
    ground (arith, index_zero n b (node-lt n small) hi, node-lt n small)

-- An end of 0 passes that test: the first end 0 and the second from 1 to the number of nodes makes
-- the write fall outside the matrix, which has at most a byte more than the square of the number of
-- nodes needs, that square being below 2 ^ 31.
pub read_pairs_zero :
    (fuel n b : ℕ) (ws : List Word) (trailing : Bool) (x y : ℤ) (m : List ℕ)
    → 8 * length m ≤ n * n + 8
    → n * n < 2 ^ 31
    → 1 ≤ b
    → b ≤ n
    → read_pairs
        (suc fuel)
        (pos n)
        m
        x
        y
        (record { left = num (pos 0) ∷ num (pos b) ∷ ws; trailing = trailing; eof = false })
      ≡ fault
unfolding read_pairs scan_pair scan scan_int
read_pairs_zero fuel n b [] trailing x y m room small lo hi =
    rw (index_zero-outside n b m room small hi) (ground arith)
read_pairs_zero fuel n b (w ∷ ws) trailing x y m room small lo hi =
    rw (index_zero-outside n b m room small hi) (ground arith)

-- A file with a newline after the two counts and no edge: the variables still hold 0, and the
-- write falls outside the matrix. There is a node, and the square of their number is below 2 ^ 31.
pub read_file_edgeless :
    (fuel t n : ℕ)
    → 1 ≤ n
    → n * n < 2 ^ 31
    → read_file (suc fuel) (some (open_file (num (pos t) ∷ num (pos n) ∷ []) true)) ≡ fault
unfolding read_file read_pairs scan_pair scan scan_int finish
read_file_edgeless fuel t n lo small =
    rw
      (
        size-eq n small,
        index_zero-outside n 0 (bit_array_create (n * n))
            (omega (arith, length-bit_array_create (n * n))) small (omega arith),
      )
      (ground arith)
