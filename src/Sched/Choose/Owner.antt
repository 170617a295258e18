-- ===== src/Sched/Choose/Owner.antt =====
-- Whose process `choose_task` can choose.
use os_design.Prelude.{
  ℕ, ◌≡◌, refl, List, [], ◌∷◌, map, Option, none, some, ltb, arith, ◌⊎◌, inl, inr, Bool-cases, ap,
  sym, ◌∙◌,
}
use mathlib.Core.Path.{subst}
use os_design.Sched.Choose.{
  Proc, User, Users, Choice, take_first, find_first, try_root, try_user, try_users, try_others,
  refill_user, refill_proc, reset_users, refill_all, reset_all, choose_task, fresh,
}
use os_design.Sched.Choose.Laws.{choose_task-keeps, Option-cases}

abbrev pub In : ℕ → List ℕ → Type 0
In t [] = ⊥
In t (x ∷ xs) = (t ≡ x) ⊎ In t xs

abbrev pub tasks : List Proc → List ℕ
tasks [] = []
tasks (p ∷ ps) = p.task ∷ tasks ps

-- The tasks of the first user after root.
abbrev pub first_tasks : List User → List ℕ
first_tasks [] = []
first_tasks (u ∷ us) = tasks u.procs

-- `o` is `run`, or a task of the list.
abbrev From : Option ℕ → List ℕ → Option ℕ → Type 0
From run ts o = (o ≡ run) ⊎ ((t : ℕ) × (o ≡ some t) × In t ts)

From-cons : (run o : Option ℕ) (x : ℕ) (ts : List ℕ) → From run ts o → From run (x ∷ ts) o
From-cons run o x ts (inl e) = inl e
From-cons run o x ts (inr (t, e, i)) = inr (t, e, inr i)

take_first-From :
    (ps : List Proc) (run : Option ℕ)
    → From run (tasks ps) (take_first ps run).0 × (tasks (take_first ps run).1 ≡ tasks ps)
unfolding take_first
take_first-From [] run = (inl refl, refl)
take_first-From (p ∷ ps) run = elim (Bool-cases (ltb 0 p.has_run)) [
  | inl now ↦ rw now (inr (p.task, refl, inl refl), refl)
  | inr later ↦
      let (f, e) = take_first-From ps run in
      rw later (
        From-cons run (take_first ps run).0 p.task (tasks ps) f,
        ap (λ (ts : List ℕ). p.task ∷ ts) e,
      )
]

find_first-From : (ps : List Proc) (run : Option ℕ) → From run (tasks ps) (find_first ps run)
unfolding find_first
find_first-From [] run = inl refl
find_first-From (p ∷ ps) run = elim (Bool-cases (ltb 0 p.has_run)) [
  | inl now ↦ rw now (inr (p.task, refl, inl refl))
  | inr later ↦
      rw later (From-cons run (find_first ps run) p.task (tasks ps) (find_first-From ps run))
]

From-some : (t : ℕ) (ts : List ℕ) (o : Option ℕ) → From (some t) ts o → (x : ℕ) × (o ≡ some x)
From-some t ts o (inl e) = (t, e)
From-some t ts o (inr (x, e, i)) = (x, e)

-- With a task at hand the loop over the other users looks at the first of them only.
try_user-From :
    (u : User) (t count : ℕ)
    → From (some t) (tasks u.procs) (try_user u (some t) count).0
      × (tasks (try_user u (some t) count).2.procs ≡ tasks u.procs)
unfolding try_user
try_user-From u t count = elim (Bool-cases (ltb 0 u.has_run)) [
  | inl now ↦ rw now (find_first-From u.procs (some t), refl)
  | inr later ↦ rw later (inl refl, refl)
]

try_users-From :
    (us : List User) (t count : ℕ)
    → From (some t) (first_tasks us) (try_users us (some t) count).0
      × (first_tasks (try_users us (some t) count).2 ≡ first_tasks us)
unfolding try_users
try_users-From [] t count = (inl refl, refl)
try_users-From (u ∷ us) t count =
    let (f, same) = try_user-From u t count in
    let (x, e) = From-some t (tasks u.procs) (try_user u (some t) count).0 f in
    rw (try_users, e) (rw e at f, same)

try_others-none : (c : Choice) → c.run_task ≡ none → try_others c ≡ c
unfolding try_others
try_others-none c idle = ground arith

module _ (root_tasks head_tasks : List ℕ) where
  abbrev Offered : Option ℕ → Type 0
  Offered o = (t : ℕ) → o ≡ some t → In t root_tasks ⊎ In t head_tasks

  record FromUsers (c : Choice) : Type 0 where
    root : tasks c.users.root.procs ≡ root_tasks
    head : first_tasks c.users.others ≡ head_tasks
    run : Offered c.run_task

  try_root-FromUsers : (c : Choice) → FromUsers c → FromUsers (try_root c)
  unfolding try_root
  try_root-FromUsers c w = elim (Bool-cases (ltb 0 c.users.root.has_run)) [
    | inr later ↦ rw later w
    | inl now ↦
        let (f, e) = take_first-From c.users.root.procs c.run_task in
        rw now record {
          root = e ∙ w.root;
          head = w.head;
          run = λ t h. elim f [
            | inl same ↦ w.run t (sym same ∙ h)
            | inr (x, g, i) ↦ let eq : x ≡ t = ground arith in rw (← eq) (inl (rw w.root at i))
          ];
        }
  ]

  try_others-FromUsers : (c : Choice) → FromUsers c → FromUsers (try_others c)
  unfolding try_others
  try_others-FromUsers c w = elim (Option-cases c.run_task) [
    | inl idle ↦ subst FromUsers (sym (try_others-none c idle)) w
    | inr (t, e) ↦
        let (f, same) = try_users-From c.users.others t c.count in
        rw e record {
          root = w.root;
          head = same ∙ w.head;
          run = λ x h. elim f [
            | inl g ↦ w.run x (e ∙ sym g ∙ h)
            | inr (y, g, i) ↦ let eq : y ≡ x = ground arith in rw (← eq) (inr (rw w.head at i))
          ];
        }
  ]

tasks-refill : (ps : List Proc) → tasks (map refill_proc ps) ≡ tasks ps
unfolding refill_proc
tasks-refill [] = refl
tasks-refill (p ∷ ps) = ground (arith, tasks-refill ps)

first_tasks-users : (us : List User) → first_tasks (map refill_user us) ≡ first_tasks us
unfolding refill_user
first_tasks-users [] = refl
first_tasks-users (u ∷ us) = refl

first_tasks-all : (us : List User) → first_tasks (map refill_all us) ≡ first_tasks us
unfolding refill_all
first_tasks-all [] = refl
first_tasks-all (u ∷ us) = tasks-refill u.procs

-- The task that is chosen belongs to root, or to the first user in the list of the others. A user
-- further down the list never gets the processor.
pub choose_task-owner :
    (fuel : ℕ) (us : Users) (t : ℕ) (us' : Users)
    → choose_task fuel (fresh us) ≡ some (t, us')
    → In t (tasks us.root.procs) ⊎ In t (first_tasks us.others)
choose_task-owner fuel us t us' e =
    let R = tasks us.root.procs in
    let H = first_tasks us.others in
    let (c, w, found, _) =
      choose_task-keeps (FromUsers R H)
        (λ c w. try_others-FromUsers R H (try_root c) (try_root-FromUsers R H c w))
        (λ c w.
          unfold reset_users refill_user in
          record { root = w.root; head = first_tasks-users c.users.others ∙ w.head; run = w.run })
        (λ c w.
          unfold reset_all refill_all in
          record {
            root = tasks-refill c.users.root.procs ∙ w.root;
            head = first_tasks-all c.users.others ∙ w.head;
            run = w.run;
          })
        fuel (fresh us) t us' (record { root = refl; head = refl; run = λ t h. cc }) e in
    w.run t found
