-- ===== src/Closure/Flip/Work.antt =====
-- The work that children and parent have left, and which children can go on.
use os_design.Prelude.{
  ℕ, suc, ◌+◌, ◌-◌, ◌*◌, ◌<◌, ◌≡◌, ap, ◌∙◌, ltb, arith, inl, inr, ◌⊎◌, Bool-cases,
}
use os_design.Prelude.Sums.{total, total_change}
use os_design.Closure.Flip.{
  Pc, working, waiting, leaving, gone, Child, Parent, checking, Shared, update, enter,
}
use os_design.Closure.Flip.Turns.{
  InTurn, at_work, counted, behind, through, away, update_self, update_other,
}

-- The work that a child has left, and that of all.
abbrev pub work : ℕ → Pc → ℕ → ℕ
work n working k = 3 * (n - k) + 2
work n waiting k = 3 * (n - k) + 1
work n leaving k = 1
work n gone k = 0

abbrev pub child_work : ℕ → (ℕ → Child) → ℕ → ℕ
child_work n f q = work n (f q).pc (f q).k

abbrev pub parent_work : Parent → ℕ
parent_work checking = 1
parent_work p = 0

abbrev pub all_work : ℕ → ℕ → ℕ → Shared → ℕ
all_work n threads g s = total (child_work n s.child) threads + 2 * (n - g) + parent_work s.parent

pub work_change :
    (n threads : ℕ) (s : Shared) (q : ℕ) (lt : q < threads) (c : Child)
    → total (child_work n (update s.child q c)) threads + child_work n s.child q
      ≡ total (child_work n s.child) threads + work n c.pc c.k
work_change n threads s q lt c =
    let self : child_work n (update s.child q c) q ≡ work n c.pc c.k =
      ap (λ (x : Child). work n x.pc x.k) (update_self s.child q c) in
    let rest =
      total_change (child_work n s.child) (child_work n (update s.child q c)) q threads lt
        (λ u ne. ap (λ (x : Child). work n x.pc x.k) (update_other s.child q u c ne)) in
    rest ∙ ap (λ (x : ℕ). total (child_work n s.child) threads + x) self

pub enter-work : (n k : ℕ) → k < n → work n (enter n (k + 1)) (k + 1) < 3 * (n - k) + 1
enter-work n k lt = elim (Bool-cases (ltb (k + 1) n)) [
  | inl h ↦ rw h (ground arith)
  | inr h ↦ rw h (ground arith)
]

-- A child that can go on, or one that waits for the flag or is gone.
pub data Moves (n g : ℕ) (c : Child) : Type 0 where
  works : c.pc ≡ working → Moves n g c
  passes : c.pc ≡ waiting → c.k < n → g ≡ suc c.k → Moves n g c
  goes : c.pc ≡ leaving → Moves n g c

pub data Rests (n g : ℕ) (c : Child) : Type 0 where
  waits : c.pc ≡ waiting → c.k ≡ g → g < n → Rests n g c
  absent : c.pc ≡ gone → g ≡ n → Rests n g c

pub moving_or_resting :
    {n g : ℕ} (c : Child) (p : Pc) (k : ℕ)
    → c.pc ≡ p
    → c.k ≡ k
    → InTurn n g p k
    → Moves n g c ⊎ Rests n g c
moving_or_resting c p k e f (at_work lt) = inl (works e)
moving_or_resting c p k e f (counted lt) = inr (waits e f lt)
moving_or_resting {n} {g} c p k e f (behind lt h) =
    inl (passes e (omega (arith, f)) (omega (arith, f, h)))
moving_or_resting c p k e f (through h) = inl (goes e)
moving_or_resting c p k e f (away h) = inr (absent e h)
