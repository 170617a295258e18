-- ===== src/Closure/Flip.antt =====
-- Project_1/Stuff/wtc_proc_test.c: the barrier that the program builds of a count and a flag in
-- shared memory. The loops over the columns between two barriers are those of Closure.Blocks and are
-- left out. What stands between `sem_wait` and `sem_post` is one step: `contLock` in the parent is
-- taken inside `bLock`, without which no child counts itself. The numbers are `int`, and `count` is
-- a number of children.
pub mod Turns
pub mod Steps
pub mod Laws
pub mod Work
pub mod Ends
mod Tests
use os_design.Prelude.{ℕ, ◌+◌, ◌-◌, ◌<◌, ◌≡◌, ◌==◌, ◌&&◌, not, ltb, if◌then◌else◌, ℕ_discrete}
use mathlib.Core.Logic.{ite}

-- Where a child stands.
pub data Pc : Type 0 where
  working : Pc  -- its columns in round `k`, up to `(*bCount)++`
  waiting : Pc  -- `while(tCont != nextFlip)`
  leaving : Pc  -- `(*count)--`
  gone : Pc

pub record Child : Type 0 where
  pub pc : Pc
  pub k : ℕ
  pub next_flip : ℕ

-- Where the parent stands in `while(!done)`.
pub data Parent : Type 0 where
  flipping : Parent  -- `bLock`
  checking : Parent  -- `cLock`
  ended : Parent

pub record Shared : Type 0 where
  pub child : ℕ → Child
  pub b_count : ℕ
  pub cont : ℕ
  pub count : ℕ
  pub parent : Parent
  pub next_flip : ℕ

abbrev pub update : (ℕ → Child) → ℕ → Child → ℕ → Child
update f q c u = ite (ℕ_discrete q u) c (f u)

-- `!x`.
abbrev pub not_int : ℕ → ℕ
not_int x = if x == 0 then 1 else 0

-- The test of the loop over `k`.
abbrev pub enter : ℕ → ℕ → Pc
enter n k = if ltb k n then working else leaving

pub start : ℕ → ℕ → Shared
start n threads = record {
  child = λ q. record { pc = enter n 0; k = 0; next_flip = 1 };
  b_count = 0;
  cont = 0;
  count = threads;
  parent = flipping;
  next_flip = 1;
}

pub arrive : ℕ → Shared → Shared
arrive q s = record s {
  child = update s.child q (record (s.child q) { pc = waiting });
  b_count = s.b_count + 1;
}

-- One turn of the loop that reads `cont`.
pub look : ℕ → ℕ → Shared → Shared
look n q s =
    let c = s.child q in
    if s.cont == c.next_flip
    then record s {
      child =
          update s.child q
            (record { pc = enter n (c.k + 1); k = c.k + 1; next_flip = not_int c.next_flip });
    }
    else s

pub leave : ℕ → Shared → Shared
leave q s = record s {
  child = update s.child q (record (s.child q) { pc = gone });
  count = s.count - 1;
}

pub flip : ℕ → Shared → Shared
flip threads s =
    if s.b_count == threads && not (s.cont == s.next_flip)
    then record s { b_count = 0; cont = not_int s.cont; parent = checking; next_flip = s.cont }
    else record s { parent = checking }

pub check : Shared → Shared
check s = record s { parent = if s.count == 0 then ended else flipping }

pub data Step (n threads : ℕ) : Shared → Shared → Type 0 where
  arrives :
      (s : Shared) (q : ℕ) → q < threads → (s.child q).pc ≡ working → Step n threads s (arrive q s)
  looks :
      (s : Shared) (q : ℕ) → q < threads → (s.child q).pc ≡ waiting → Step n threads s (look n q s)
  leaves :
      (s : Shared) (q : ℕ) → q < threads → (s.child q).pc ≡ leaving → Step n threads s (leave q s)
  flips : (s : Shared) → s.parent ≡ flipping → Step n threads s (flip threads s)
  checks : (s : Shared) → s.parent ≡ checking → Step n threads s (check s)

pub data Reach (n threads : ℕ) : Shared → Type 0 where
  here : Reach n threads (start n threads)
  next : {s u : Shared} → Reach n threads s → Step n threads s u → Reach n threads u

pub data Run (n threads : ℕ) : Shared → Shared → Type 0 where
  stay : {s : Shared} → Run n threads s s
  step : {s u v : Shared} → Step n threads s u → Run n threads u v → Run n threads s v
