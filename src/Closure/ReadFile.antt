-- ===== src/Closure/ReadFile.antt =====
-- Project_1/Stuff/functions.c: `read_file`, which reads a graph into a packed matrix.
-- What `fscanf` sees of a file is the sequence of its words and whether anything, a newline say,
-- follows the last of them.
pub mod Laws
pub mod Errors
mod Tests
use os_design.Prelude.{
  ℕ, zero, suc, ◌+◌, ◌*◌, ◌/◌, ◌<◌, ◌≡◌, List, [], ◌∷◌, Bool, true, false, ◌&&◌, ◌||◌, not, ltb,
  length, Option, none, some, if◌then◌else◌,
}
use os_design.Prelude.Int.{ℤ, pos, ◌+ℤ◌, ◌-ℤ◌, ◌*ℤ◌, lt_ℤ, to_u32}
use os_design.Closure.BitArray.{bit_array_create, bit_array_set}

pub data Word : Type 0 where
  num : ℤ → Word
  junk : Word  -- where `%d` fails, and reads nothing

pub record File : Type 0 where
  pub left : List Word
  pub trailing : Bool  -- something follows the last word
  pub eof : Bool  -- what `feof` returns

abbrev pub open_file : List Word → Bool → File
open_file words trailing = record { left = words; trailing = trailing; eof = false }

-- The end is met when the last word is read, if nothing follows it.
abbrev pub after : List Word → Bool → File
after [] trailing = record { left = []; trailing = trailing; eof = not trailing }
after (w ∷ ws) trailing = record { left = w ∷ ws; trailing = trailing; eof = false }

pub record Scan : Type 0 where
  pub value : ℤ
  pub matched : Bool
  pub file : File

-- One `%d` into a variable that holds `old`.
unfoldable pub scan_int : List Word → Bool → Bool → ℤ → Scan
scan_int [] trailing eof old = record {
  value = old;
  matched = false;
  file = record { left = []; trailing = trailing; eof = true };
}
scan_int (junk ∷ ws) trailing eof old = record {
  value = old;
  matched = false;
  file = record { left = junk ∷ ws; trailing = trailing; eof = eof };
}
scan_int (num z ∷ ws) trailing eof old = record {
  value = z;
  matched = true;
  file = after ws trailing;
}

unfoldable pub scan : File → ℤ → Scan
unfolding scan_int
scan f old = scan_int f.left f.trailing f.eof old

-- `fscanf (file, "%d %d", &a, &b)`: the second conversion is tried if the first succeeds.
unfoldable pub scan_pair : File → ℤ → ℤ → ℤ × ℤ × File
unfolding scan
scan_pair f a b =
    let first = scan f a in
    if first.matched
    then (let second = scan first.file b in (first.value, second.value, second.file))
    else (first.value, b, first.file)

-- How `read_file` can end: `exited` by `err_exit`, `fault` by a write outside the matrix, and
-- `running` when the fuel ran out.
pub data Outcome (A : Type 0) : Type 0 where
  done : A → Outcome A
  exited : Outcome A
  fault : Outcome A
  running : Outcome A

-- `(a-1)* *number_of_nodes + (b-1)`, as the argument of `bit_array_set`.
unfoldable pub index : ℤ → ℤ → ℤ → ℕ
index n a b = to_u32 ((a -ℤ pos 1) *ℤ n +ℤ (b -ℤ pos 1))

-- `while (!feof(file))`.
unfoldable pub read_pairs : ℕ → ℤ → List ℕ → ℤ → ℤ → File → Outcome (List ℕ)
read_pairs zero n matrix a b f = running
read_pairs (suc fuel) n matrix a b f =
    let (a', b', f') = scan_pair f a b in
    let rest = read_pairs fuel n (bit_array_set matrix (index n a' b')) a' b' f' in
    if f.eof
    then done matrix
    else if lt_ℤ n a' || lt_ℤ n b'
    then exited
    else if ltb (index n a' b' / 8) (length matrix)
    then rest
    else fault

pub record Graph : Type 0 where
  pub threads : ℤ
  pub nodes : ℤ
  pub matrix : List ℕ

unfoldable pub finish : ℤ → ℤ → Outcome (List ℕ) → Outcome Graph
finish threads nodes (done m) = done (record { threads = threads; nodes = nodes; matrix = m })
finish threads nodes exited = exited
finish threads nodes fault = fault
finish threads nodes running = running

-- `none` is a file that `fopen` cannot open. The two counts are globals, which start at 0.
unfoldable pub read_file : ℕ → Option File → Outcome Graph
unfolding scan finish
read_file fuel none = exited
read_file fuel (some f) =
    let first = scan f (pos 0) in
    let second = scan first.file (pos 0) in
    finish first.value second.value (
      read_pairs fuel second.value (bit_array_create (to_u32 (second.value *ℤ second.value)))
        (pos 0) (pos 0) second.file)
