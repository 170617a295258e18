-- ===== src/Closure/Programs/Table.antt =====
-- The runs of the four programs on one file, each by itself.
use os_design.Prelude.{
  ℕ, suc, ◌+◌, ◌*◌, ◌/◌, ◌<◌, ◌≤◌, ◌≡◌, ◌^◌, ◌∙◌, List, ◌∷◌, Bool, some, length, replicate, arith,
}
use os_design.Prelude.Int.{ℤ, pos}
use os_design.Closure.Grid
use os_design.Closure.Walks.{Edges, via, via-same}
use os_design.Closure.ReadFile.{File, num, open_file, read_file, Outcome, done, Graph}
use os_design.Closure.ReadFile.Laws.{edge_words, IsListed, listed, read_file-listed}
use os_design.Closure.Threads.{Machine, joined}
use os_design.Closure.Threads
use os_design.Closure.Threads.Laws.{joined-via}
use os_design.Closure.Bag
use os_design.Closure.Bag.Joined.{bag_joined-via}
use os_design.Closure.Processes.Column.{entry}
use os_design.Closure.Processes.{set_queue, Rounds}
use os_design.Closure.Processes.Found.{Found, Found-first}
use os_design.Closure.Processes.Laws.{Rounds-Found}
use os_design.Closure.Blocks.{AfterRounds}
use os_design.Closure.Blocks.Laws.{AfterRounds-Found}
use os_design.Closure.IntFile.{load_matrix}
use os_design.Closure.IntFile.Laws.{IsIntGrid, load_matrix-listed, load_matrix_counts}
use os_design.Closure.Output.{print_matrix, print_matrix2}
use os_design.Closure.Output.Laws.{IsBits, table, print_matrix-table, print_matrix2-table}
use os_design.Closure.Programs.Bits.{Rounds-IsBits, AfterRounds-IsBits}
use os_design.Closure.Programs.{
  Program, Run, threads_joined, blocks_done, queue_done, bag_joined, wtc_proc, wtc_thr, wtc_btproc,
  wtc_btthr,
}

-- A file of the two counts and one edge or more.
abbrev pub edge_file : ℕ → ℕ → List (ℕ × ℕ) → Bool → File
edge_file t n es trailing = open_file (num (pos t) ∷ num (pos n) ∷ edge_words es) trailing

abbrev pub joins : List (ℕ × ℕ) → Edges
joins es x y = listed x y es

-- Which nodes are joined by a path, as a table.
abbrev closure : ℕ → List (ℕ × ℕ) → List (List ℕ)
closure n es = table (via (joins es) n) n

-- wtc_btthr.c is for graphs of 11 nodes.
abbrev pub Suits : Program → ℕ → Type 0
Suits wtc_btthr n = n ≡ 11
Suits wtc_proc n = Unit
Suits wtc_thr n = Unit
Suits wtc_btproc n = Unit

-- The same graph is read in whichever way its counts are read.
Graph-counts :
    {t n t' n' : ℕ} {m m' : List ℕ} {o : Outcome Graph}
    → o ≡ done (record { threads = pos t; nodes = pos n; matrix = m })
    → o ≡ done (record { threads = pos t'; nodes = pos n'; matrix = m' })
    → (t ≡ t') × (n ≡ n') × (m ≡ m')
Graph-counts p q = (cc, cc, cc)

-- What the matrix says after the rounds, when it began with the edges of the file.
Found-table :
    (n : ℕ) (es : List (ℕ × ℕ)) (m last : List ℕ)
    → ((x y : ℕ) → x < n → y < n → entry n m x y ≡ joins es x y)
    → Found (entry n m) n n last
    → (x y : ℕ) → x < n
    → y < n
    → entry n last x y ≡ via (joins es) n x y
Found-table n es m last same found x y hx hy =
    found.value x y hx hy ∙ via-same (entry n m) (joins es) n same n x y (omega arith) hx hy

module _ (fuel t n i j : ℕ) (es : List (ℕ × ℕ)) (trailing : Bool) (small : n * n < 2 ^ 31)
    (even : t * (n / t) ≡ n) (listing : IsListed n ((i, j) ∷ es))
    (enough : length es + 2 < fuel) where
  abbrev edges : List (ℕ × ℕ)
  edges = (i, j) ∷ es

  abbrev IsRead : ℕ → List ℕ → Type 0
  IsRead n' m = (x y : ℕ) → x < n' → y < n' → entry n' m x y ≡ joins edges x y

  threads-same :
      (t' n' : ℕ) (m out : List ℕ) (s : Machine)
      → t ≡ t'
      → n ≡ n'
      → out ≡ m
      → Grid.IsGrid n out
      → ((x y : ℕ) → x < n → y < n → Grid.entry n out x y ≡ joins edges x y)
      → Threads.Reach n' t' m s
      → s.main ≡ joined
      → print_matrix s.matrix n' ≡ closure n edges
  threads-same t' n' m out s et en em grid same r over =
      let r' : Threads.Reach n t out s = rw (et, en, em) r in
      rw (← en) (
        print_matrix-table (via (joins edges) n) n s.matrix (λ x y hx hy.
          joined-via grid even r' over x y hx hy
          ∙ via-same (Grid.entry n out) (joins edges) n same n x y (omega arith) hx hy))

  threads-table :
      (t' n' : ℕ) (m : List ℕ) (s : Machine)
      → read_file fuel (some (edge_file t n edges trailing))
        ≡ done (record { threads = pos t'; nodes = pos n'; matrix = m })
      → Threads.Reach n' t' m s
      → s.main ≡ joined
      → print_matrix s.matrix n' ≡ closure n edges
  threads-table t' n' m s reads r over =
      let (out, returns, grid, same) =
        read_file-listed fuel t n i j es trailing small listing enough in
      let (et, en, em) = Graph-counts returns reads in
      threads-same t' n' m out s et en em grid same r over

  bag-same :
      (t' n' : ℕ) (m out : List ℕ) (s : Bag.Machine)
      → 1 ≤ t
      → n ≡ 11
      → t ≡ t'
      → n ≡ n'
      → out ≡ m
      → Grid.IsGrid n out
      → ((x y : ℕ) → x < n → y < n → Grid.entry n out x y ≡ joins edges x y)
      → Bag.Reach n' t' m s
      → s.main ≡ Bag.joined
      → print_matrix s.matrix n' ≡ closure n edges
  bag-same t' n' m out s child eleven et en em grid same r over =
      let r' : Bag.Reach 11 t out s = rw (et, ← eleven, en, em) r in
      let grid' : Grid.IsGrid 11 out = rw (← eleven) grid in
      let exact : (x y : ℕ)
          → x < n
          → y < n
          → Grid.entry n s.matrix x y ≡ via (Grid.entry n out) n x y =
        rw eleven (bag_joined-via grid' child r' over) in
      rw (← en) (
        print_matrix-table (via (joins edges) n) n s.matrix (λ x y hx hy.
          exact x y hx hy
          ∙ via-same (Grid.entry n out) (joins edges) n same n x y (omega arith) hx hy))

  bag-table :
      (t' n' : ℕ) (m : List ℕ) (s : Bag.Machine)
      → 1 ≤ t
      → n ≡ 11
      → read_file fuel (some (edge_file t n edges trailing))
        ≡ done (record { threads = pos t'; nodes = pos n'; matrix = m })
      → Bag.Reach n' t' m s
      → s.main ≡ Bag.joined
      → print_matrix s.matrix n' ≡ closure n edges
  bag-table t' n' m s child eleven reads r over =
      let (out, returns, grid, same) =
        read_file-listed fuel t n i j es trailing small listing enough in
      let (et, en, em) = Graph-counts returns reads in
      bag-same t' n' m out s child eleven et en em grid same r over

  -- What both kinds of processes begin with.
  record Loaded (t' n' : ℕ) (m : List ℕ) : Type 0 where
    threads : t ≡ t'
    nodes : n ≡ n'
    bits : IsBits m
    found : Found (entry n m) n 0 m
    same : IsRead n m

  Loaded-intro :
      (t' n' : ℕ) (m out : List ℕ)
      → t ≡ t'
      → n ≡ n'
      → out ≡ m
      → IsIntGrid n out
      → IsRead n out
      → Loaded t' n' m
  Loaded-intro t' n' m out et en em grid same = record {
    threads = et;
    nodes = en;
    bits = rw (← em) grid.bits;
    found = Found-first n m (rw (← em) grid.size);
    same = rw (← em) same;
  }

  loaded :
      (t' n' size : ℕ) (m : List ℕ) (c d a b : ℤ)
      → load_matrix fuel (some (edge_file t n edges trailing)) c d a b (replicate size 0)
        ≡ done (record { threads = pos t'; nodes = pos n'; matrix = m })
      → size ≡ n' * n'
      → Loaded t' n' m
  loaded t' n' size m c d a b reads square =
      let counts = load_matrix_counts fuel t n edges trailing c d a b (replicate size 0) _ reads in
      let en : n ≡ n' = cc in
      let at : size ≡ n * n = rw en square in
      let (out, returns, grid, same) =
        load_matrix-listed fuel t n i j es trailing c d a b listing enough in
      let (_, _, em) = Graph-counts {t' = t'} {n' = n'} {m' = m} returns (rw (← at) reads) in
      let et : t ≡ t' = cc in Loaded-intro t' n' m out et en em grid same

  blocks-table :
      (t' n' size : ℕ) (m last : List ℕ) (c d a b : ℤ)
      → load_matrix fuel (some (edge_file t n edges trailing)) c d a b (replicate size 0)
        ≡ done (record { threads = pos t'; nodes = pos n'; matrix = m })
      → size ≡ n' * n'
      → AfterRounds n' t' m n' last
      → print_matrix2 last n' ≡ closure n edges
  blocks-table t' n' size m last c d a b reads square rs =
      let l = loaded t' n' size m c d a b reads square in
      let rs' : AfterRounds n t m n last = rw (l.threads, l.nodes) rs in
      rw (← l.nodes) (
        print_matrix2-table (via (joins edges) n) n last (AfterRounds-IsBits l.bits rs') (
          Found-table n edges m last l.same
            (AfterRounds-Found (entry n m) n t even l.found (omega arith) rs')))

  some_child : 1 ≤ t
  some_child = grind (arith, even, listing.0)

  queue-table :
      (t' n' size : ℕ) (m last : List ℕ) (c d a b : ℤ) (queue : List ℤ)
      → load_matrix fuel (some (edge_file t n edges trailing)) c d a b (replicate size 0)
        ≡ done (record { threads = pos t'; nodes = pos n'; matrix = m })
      → size ≡ n' * n'
      → length queue ≡ suc n'
      → Rounds n' t' (set_queue queue n') m n' last
      → print_matrix2 last n' ≡ closure n edges
  queue-table t' n' size m last c d a b queue reads square room rs =
      let l = loaded t' n' size m c d a b reads square in
      let rs' : Rounds n t (set_queue queue n) m n last = rw (l.threads, l.nodes) rs in
      rw (← l.nodes) (
        print_matrix2-table (via (joins edges) n) n last (Rounds-IsBits l.bits rs') (
          Found-table n edges m last l.same (
            Rounds-Found (entry n m) n t queue (omega (arith, room, l.nodes)) some_child l.found
              (omega arith) rs')))

  pub Run-table :
      {p : Program} {shown : List (List ℕ)}
      → Suits p n
      → Run fuel (some (edge_file t n edges trailing)) p shown
      → shown ≡ closure n edges
  Run-table suits (threads_joined {t = t'} {n = n'} {matrix = m} {s = s} reads r over) =
      threads-table t' n' m s reads r over
  Run-table suits
        (blocks_done {t = t'} {n = n'} {size = size} {matrix = m} {last = l} c d a b reads sq rs) =
      blocks-table t' n' size m l c d a b reads sq rs
  Run-table suits (bag_joined {t = t'} {n = n'} {matrix = m} {s = s} reads r over) =
      bag-table t' n' m s some_child suits reads r over
  Run-table suits
        (queue_done {t = t'} {n = n'} {size = size} {matrix = m} {last = l} c d a b q reads sq room
          rs) =
      queue-table t' n' size m l c d a b q reads sq room rs
