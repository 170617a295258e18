-- ===== src/Sched/Switch/Loan.antt =====
-- What a kernel thread that runs has added to the count of the memory that it uses.
use os_design.Prelude.Int.{ℤ, pos, ◌+ℤ◌, ◌-ℤ◌, int_laws}
use os_design.Prelude.{
  ℕ, ◌==◌, if◌then◌else◌, ◌≡◌, sym, ap, ◌∙◌, Option, none, some, arith, ℕ_discrete,
}
use os_design.Sched.Switch.{Switch, count}

abbrev pub lent_to : Option ℕ → Option ℕ → ℕ → ℤ
lent_to none (some memory) m = if memory == m then pos 1 else pos 0
lent_to none none m = pos 0
lent_to (some own) active m = pos 0

abbrev pub on_loan : Switch → ℕ → ℤ
on_loan s m = lent_to (s.task s.current).mm (s.task s.current).active_mm m

pub lent_to_user : {mm : Option ℕ} (am : Option ℕ) (a m : ℕ) → mm ≡ some a → lent_to mm am m ≡ pos 0
lent_to_user am a m e = rw e (ground arith)

pub lent_to_kernel :
    {mm am : Option ℕ} (x m : ℕ)
    → mm ≡ none
    → am ≡ some x
    → lent_to mm am m ≡ lent_to none (some x) m
lent_to_kernel x m e f = rw e (rw f (ground arith))

-- The counts of two states from what is on loan in them.
pub balanced : (c d : ℤ) {v w a b : ℤ} → v ≡ a → w ≡ b → c -ℤ a ≡ d -ℤ b → c -ℤ v ≡ d -ℤ w
balanced c d e f h = ap (λ (x : ℤ). c -ℤ x) e ∙ h ∙ ap (λ (x : ℤ). d -ℤ x) (sym f)

one_back : (a : ℤ) → (a +ℤ pos 1) -ℤ pos 1 ≡ a
one_back a = grind int_laws

less_none : (a : ℤ) → a -ℤ pos 0 ≡ a
less_none a = grind int_laws

-- The counts after a loan, after one is returned, and after one is passed on.
pub count_lent :
    (f : ℕ → ℤ) (x m : ℕ) → count f x (f x +ℤ pos 1) m -ℤ lent_to none (some x) m ≡ f m -ℤ pos 0
count_lent f x m = elim (ℕ_discrete x m) [
  | yes same ↦ rw same (ground (arith, one_back (f m), less_none (f m)))
  | no other ↦ ground arith
]

pub count_returned :
    (f : ℕ → ℤ) (x m : ℕ) → count f x (f x -ℤ pos 1) m -ℤ pos 0 ≡ f m -ℤ lent_to none (some x) m
count_returned f x m = elim (ℕ_discrete x m) [
  | yes same ↦ rw same (ground (arith, less_none (f m -ℤ pos 1)))
  | no other ↦ ground arith
]

pub count_passed :
    (f : ℕ → ℤ) (x m : ℕ)
    → count (count f x (f x +ℤ pos 1)) x (count f x (f x +ℤ pos 1) x -ℤ pos 1) m ≡ f m
count_passed f x m = elim (ℕ_discrete x m) [
  | yes same ↦ rw same (ground (arith, one_back (f m)))
  | no other ↦ ground arith
]
