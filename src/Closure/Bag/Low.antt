-- ===== src/Closure/Bag/Low.antt =====
-- Which rows the threads of wtc_btthr.c write: the turns of one thread.
use os_design.Prelude.{
  ℕ, ◌+◌, ◌<◌, ◌≤◌, ◌≡◌, refl, ap, ◌∙◌, ◌⊎◌, inl, inr, List, Option, none, some, Bool, true, false,
  ltb, ℕ_discrete, Bool-cases, arith,
}
use mathlib.Core.Logic.{ite}
use os_design.Prelude.Int.{ℤ, pos, negsuc, ◌-ℤ◌, pos_part, ◌≤ℤ◌}
use os_design.Closure.Grid.{entry, IsGrid}
use os_design.Closure.Threads.{relax}
use os_design.Closure.Threads.Writes.{relax-IsGrid, relax-entry}
use os_design.Closure.Bag.{
  Pc, test, at_kbarrier, looking, locked, reading, col, at_barrier, finished, lost, MainPc, testing,
  setting, Machine, update, goto, is_over, take_row, read_row, act,
}

-- A thread that has not passed the first barrier of a round.
unfoldable pub idle : Pc → Bool
idle test = true
idle at_kbarrier = true
idle finished = true
idle p = false

-- `wtc_btthr` before its first write to the counter.
abbrev pub early : MainPc → Bool
early testing = true
early setting = true
early p = false

pub record Begins (s : Machine) : Type 0 where
  pub main : early s.main ≡ true
  pub round : s.k ≡ 0
  pub idles : (t : ℕ) → idle (s.pc t) ≡ true

pub late : {s : Machine} (p : MainPc) → Begins s → s.main ≡ p → early p ≡ false → ⊥
late p b at over = let w : early p ≡ true = rw at at b.main in absurd cc

pub record Low (n : ℕ) (a : List ℕ) (s : Machine) : Type 0 where
  pub grid : IsGrid n s.matrix
  pub rows : (x y : ℕ) → 11 ≤ x → x < n → y < n → entry n s.matrix x y ≡ entry n a x y
  pub held : (t r : ℕ) → s.i t ≡ some r → r ≤ 10
  pub cols : (t i ik j : ℕ) → s.pc t ≡ col i ik j → i ≤ 10
  pub begins : Begins s ⊎ (s.queue ≤ℤ pos 10)

updated {ℓ ℓ'} :
    {A : Type ℓ} (P : A → Type ℓ') (f : ℕ → A) (t : ℕ) (a : A)
    → P a
    → ((u : ℕ) → P (f u))
    → (u : ℕ) → P (update f t a u)
updated P f t a pa pf u = elim (ℕ_discrete t u) as (λ d. P (ite d a (f u))) [
  | yes _ ↦ pa
  | no _ ↦ pf u
]

low_row : (q : ℤ) → q ≤ℤ pos 10 → pos_part q ≤ 10
low_row (pos q) le = omega arith
low_row (negsuc q) le = omega arith

lower_queue : (q : ℤ) → q ≤ℤ pos 10 → (q -ℤ pos 1) ≤ℤ pos 10
unfolding ◌-ℤ◌
lower_queue (pos q) le = ground arith
lower_queue (negsuc q) le = ground arith

abbrev pub LowPc : Pc → Type 0
LowPc p = (i ik j : ℕ) → p ≡ col i ik j → i ≤ 10

module _ {n : ℕ} {a : List ℕ} {s : Machine} (h : Low n a s) (big : 11 ≤ n) (t : ℕ) where
  goto-Begins :
      (p : Pc)
      → (idle (s.pc t) ≡ true → idle p ≡ true)
      → Begins s ⊎ (s.queue ≤ℤ pos 10)
      → Begins (goto s t p) ⊎ (s.queue ≤ℤ pos 10)
  goto-Begins p keeps (inl b) = inl (record {
    main = b.main;
    round = b.round;
    idles = updated (λ q. idle q ≡ true) s.pc t p (keeps (b.idles t)) b.idles;
  })
  goto-Begins p keeps (inr q) = inr q

  goto-Low : (p : Pc) → LowPc p → (idle (s.pc t) ≡ true → idle p ≡ true) → Low n a (goto s t p)
  goto-Low p low keeps = record {
    grid = h.grid;
    rows = h.rows;
    held = h.held;
    cols = updated LowPc s.pc t p low h.cols;
    begins = goto-Begins p keeps h.begins;
  }

  relax-Low :
      (i ik j : ℕ) → i ≤ 10 → j < n → Low n a (record s { matrix = relax n s.k i ik j s.matrix })
  relax-Low i ik j le lt = record {
    grid = relax-IsGrid n s.k i ik j s.matrix h.grid;
    rows = λ x y lo hx hy. ground (
      arith,
      relax-entry n s.k i ik j s.matrix h.grid x y (omega arith) lt hx hy,
      h.rows x y lo hx hy,
    );
    held = h.held;
    cols = h.cols;
    begins = begins_kept h.begins;
  }
    where
      begins_kept :
          Begins s ⊎ (s.queue ≤ℤ pos 10)
          → Begins (record s { matrix = relax n s.k i ik j s.matrix }) ⊎ (s.queue ≤ℤ pos 10)
      begins_kept (inl b) = inl (record { main = b.main; round = b.round; idles = b.idles })
      begins_kept (inr q) = inr q

  taken-Low :
      s.queue ≤ℤ pos 10
      → Low n a (record s { queue = s.queue -ℤ pos 1; i = update s.i t (some (pos_part s.queue)) })
  taken-Low q = record {
    grid = h.grid;
    rows = h.rows;
    held =
        updated (λ (o : Option ℕ). (r : ℕ) → o ≡ some r → r ≤ 10) s.i t (some (pos_part s.queue))
          (λ r e. let same : pos_part s.queue ≡ r = cc in omega (arith, low_row s.queue q)) h.held;
    cols = h.cols;
    begins = inr (lower_queue s.queue q);
  }

  take_row-Low : idle (s.pc t) ≡ false → Low n a (take_row t s)
  unfolding take_row
  take_row-Low works = elim (Bool-cases (is_over s.queue)) [
    | inl over ↦ rw over h
    | inr more ↦
        rw more (elim h.begins [ inl b ↦ let i = b.idles t in absurd cc | inr q ↦ taken-Low q ])
  ]

  busy-Low : (p : Pc) → LowPc p → idle (s.pc t) ≡ false → Low n a (goto s t p)
  busy-Low p low works = goto-Low p low (λ w. absurd cc)

take_row_pc : (t : ℕ) (s : Machine) → (take_row t s).pc t ≡ s.pc t
unfolding take_row
take_row_pc t s = elim (Bool-cases (is_over s.queue)) [
  | inl over ↦ rw over refl
  | inr more ↦ rw more refl
]

module _ {n : ℕ} {a : List ℕ} {s : Machine} (h : Low n a s) (big : 11 ≤ n) (t : ℕ) where
  read_row-Low : idle (s.pc t) ≡ false → (o : Option ℕ) → s.i t ≡ o → Low n a (read_row n t s o)
  unfolding read_row
  read_row-Low works none e = busy-Low h big t lost (λ i ik j e. cc) works
  read_row-Low works (some r) e =
      busy-Low h big t (col r _ 0)
        (λ i ik j e'. let same : r ≡ i = cc in omega (arith, h.held t r e)) works

  pub act-Low : (p : Pc) → s.pc t ≡ p → Low n a (act n t s p)
  unfolding act idle
  act-Low test at = elim (Bool-cases (ltb s.k n)) [
    | inl more ↦ rw more (goto-Low h big t at_kbarrier (λ i ik j e. cc) (λ w. refl))
    | inr over ↦ rw over (goto-Low h big t finished (λ i ik j e. cc) (λ w. refl))
  ]
  act-Low looking at = elim (Bool-cases (is_over s.queue)) [
    | inl over ↦ rw over (busy-Low h big t at_barrier (λ i ik j e. cc) (ap idle at))
    | inr more ↦ rw more (busy-Low h big t locked (λ i ik j e. cc) (ap idle at))
  ]
  act-Low locked at =
      busy-Low (take_row-Low h big t (ap idle at)) big t reading (λ i ik j e. cc)
        (ap idle (take_row_pc t s ∙ at))
  act-Low reading at = read_row-Low (ap idle at) (s.i t) refl
  act-Low (col i ik j) at = elim (Bool-cases (ltb j n)) [
    | inl more ↦
        let low = h.cols t i ik j at in
        rw more (
          busy-Low (relax-Low h big t i ik j low (ground arith)) big t (col i ik (j + 1))
            (λ x y z e. let same : i ≡ x = cc in omega arith) (ap idle at))
    | inr over ↦ rw over (busy-Low h big t looking (λ i ik j e. cc) (ap idle at))
  ]
  act-Low p at = h
