-- ===== src/Closure/IntFile.antt =====
-- Project_1/Stuff: `openMatrix` and `readMatrix` of wtc_btproc.c, which wtc_proc.c has within its
-- function. The matrix is the start of the shared memory, one `int` for each entry; a write at an
-- index outside of it is a fault, here as in ReadFile.
pub mod Laws
use os_design.Prelude.{
  ℕ, zero, suc, List, Bool, true, false, Option, none, some, ltb, length, set, if◌then◌else◌,
}
use os_design.Prelude.Int.{ℤ, pos, negsuc, ◌+ℤ◌, ◌-ℤ◌, ◌*ℤ◌, pos_part}
use os_design.Closure.ReadFile.{File, scan, scan_pair, Outcome, done, fault, running, Graph, finish}

-- `fopen`, and the two counts, into variables that hold `thread_count` and `line_count`; `none` is a
-- call of `fscanf` on NULL.
unfoldable pub open_matrix : Option File → ℤ → ℤ → Option (ℤ × ℤ × File)
open_matrix none thread_count line_count = none
open_matrix (some f) thread_count line_count =
    let first = scan f thread_count in
    let second = scan first.file line_count in some (first.value, second.value, second.file)

-- `((a-1)*lineCount) + (b-1)`.
unfoldable pub int_index : ℤ → ℤ → ℤ → ℤ
int_index line_count a b = (a -ℤ pos 1) *ℤ line_count +ℤ (b -ℤ pos 1)

unfoldable pub is_inside : ℤ → ℕ → Bool
is_inside (pos i) size = ltb i size
is_inside (negsuc i) size = false

-- `while (!feof (file))`, where `a` and `b` hold what they hold.
unfoldable pub read_matrix : ℕ → ℤ → List ℕ → ℤ → ℤ → File → Outcome (List ℕ)
unfolding int_index is_inside
read_matrix zero line_count matrix a b f = running
read_matrix (suc fuel) line_count matrix a b f =
    let (a', b', f') = scan_pair f a b in
    let at = int_index line_count a' b' in
    let rest = read_matrix fuel line_count (set matrix (pos_part at) 1) a' b' f' in
    if f.eof then done matrix else if is_inside at (length matrix) then rest else fault

-- Both, with the memory that is mapped and what the variables hold before.
unfoldable pub load_matrix : ℕ → Option File → ℤ → ℤ → ℤ → ℤ → List ℕ → Outcome Graph
unfolding open_matrix read_matrix
load_matrix fuel file thread_count line_count a b memory =
    elim (open_matrix file thread_count line_count) [
      | none ↦ fault
      | some (threads, lines, f) ↦ finish threads lines (read_matrix fuel lines memory a b f)
    ]
