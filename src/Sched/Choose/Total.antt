-- ===== src/Sched/Choose/Total.antt =====
-- When the loop of `choose_task` ends.
use os_design.Prelude.{
  ℕ, zero, suc, ◌+◌, ◌-◌, ◌<◌, ◌≤◌, ◌≡◌, ◌≢◌, refl, List, [], ◌∷◌, map, Bool, true, false, Option,
  none, some, ltb, ◌==◌, arith, dec_lt, ◌||◌, sym, ◌∙◌, ap, inl, inr, Bool-cases,
}
use mathlib.Core.Path.{subst}
use os_design.Sched.Choose.{
  Proc, User, Users, Choice, take_first, find_first, try_root, try_user, try_users, try_others,
  refill_user, refill_proc, reset_users, refill_all, reset_all, choose_task, fresh, pass,
}

-- Some process has a positive counter.
abbrev pub ready : List Proc → Bool
ready [] = false
ready (p ∷ ps) = ltb 0 p.has_run || ready ps

abbrev Found : Option ℕ → Type 0
Found o = (t : ℕ) × (o ≡ some t)

take_first-Found : (ps : List Proc) (run : Option ℕ) → ready ps ≡ true → Found (take_first ps run).0
unfolding take_first
take_first-Found [] run h = cc
take_first-Found (p ∷ ps) run h = elim (Bool-cases (ltb 0 p.has_run)) [
  | inl now ↦ (p.task, rw now)
  | inr later ↦ let (t, e) = take_first-Found ps run (rw later at h) in (t, rw later e)
]

find_first-Found : (ps : List Proc) (t : ℕ) → Found (find_first ps (some t))
unfolding find_first
find_first-Found [] t = (t, refl)
find_first-Found (p ∷ ps) t = elim (Bool-cases (ltb 0 p.has_run)) [
  | inl now ↦ (p.task, rw now)
  | inr later ↦ let (x, e) = find_first-Found ps t in (x, rw later e)
]

try_user-Found :
    (u : User) (t count : ℕ)
    → Found (try_user u (some t) count).0 × (count ≤ (try_user u (some t) count).1)
unfolding try_user
try_user-Found u t count = elim (Bool-cases (ltb 0 u.has_run)) [
  | inl now ↦ rw now (find_first-Found u.procs t, omega arith)
  | inr later ↦ rw later ((t, refl), omega arith)
]

try_users-Found :
    (us : List User) (t count : ℕ)
    → Found (try_users us (some t) count).0 × (count ≤ (try_users us (some t) count).1)
unfolding try_users
try_users-Found [] t count = ((t, refl), omega arith)
try_users-Found (u ∷ us) t count =
    let ((x, e), le) = try_user-Found u t count in rw (try_users, e) ((x, refl), le)

-- How the tests at the end of a pass go on.
choose_task-stop :
    (fuel : ℕ) (c : Choice) (t : ℕ)
    → (pass c).count ≢ 0
    → (pass c).run_task ≡ some t
    → choose_task (suc fuel) c ≡ some (t, (pass c).users)
unfolding choose_task
choose_task-stop fuel c t h e = ground arith

choose_task-users :
    (fuel : ℕ) (c : Choice)
    → (pass c).count ≡ 0
    → choose_task (suc fuel) c
      ≡ choose_task fuel (record (pass c) { users = reset_users (pass c).users })
unfolding choose_task
choose_task-users fuel c h = rw h

choose_task-all :
    (fuel : ℕ) (c : Choice)
    → (pass c).count ≢ 0
    → (pass c).run_task ≡ none
    → choose_task (suc fuel) c
      ≡ choose_task fuel (record (pass c) { users = reset_all (pass c).users })
unfolding choose_task
choose_task-all fuel c h e = ground arith

try_others-Found :
    (c : Choice) (t : ℕ)
    → c.run_task ≡ some t
    → Found (try_others c).run_task × (c.count ≤ (try_others c).count)
unfolding try_others
try_others-Found c t e = rw e (try_users-Found c.users.others t c.count)

try_root-counts : (c : Choice) → 0 < c.users.root.has_run → 0 < (try_root c).count
unfolding try_root
try_root-counts c h = ground arith

-- With root's counter positive and one of root's processes ready, the pass finds a task.
pass-Found :
    (c : Choice)
    → 0 < c.users.root.has_run
    → ready c.users.root.procs ≡ true
    → Found (pass c).run_task × (0 < (pass c).count)
pass-Found c h r =
    let (t, e) = take_first-Found c.users.root.procs c.run_task r in
    let (found, le) = try_others-Found (try_root c) t (unfold try_root in ground (arith, e)) in
    (found, omega (arith, le, try_root-counts c h))

take_first-none :
    (ps : List Proc) (run : Option ℕ) → ready ps ≡ false → take_first ps run ≡ (run, ps)
unfolding take_first
take_first-none [] run h = refl
take_first-none (p ∷ ps) run h = ground (arith, take_first-none ps run)

-- With no process of root ready, the pass finds none, and no process changes.
pass-none :
    (c : Choice)
    → 0 < c.users.root.has_run
    → ready c.users.root.procs ≡ false
    → c.run_task ≡ none
    → pass c ≡ record {
      users = record {
        root = record { has_run = c.users.root.has_run - 1; procs = c.users.root.procs };
        others = c.users.others;
      };
      run_task = none;
      count = c.count + 1;
    }
unfolding try_root try_others
pass-none c h r e = ground (arith, take_first-none c.users.root.procs c.run_task)

-- With root's counter at 0 the pass does nothing.
pass-idle : (c : Choice) → c.users.root.has_run ≡ 0 → c.run_task ≡ none → pass c ≡ c
unfolding try_root try_others
pass-idle c h e = ground arith

ready-refill : (p : Proc) (ps : List Proc) → ready (map refill_proc (p ∷ ps)) ≡ true
unfolding refill_proc
ready-refill p ps = ground arith

Chosen : Option (ℕ × Users) → Type 0
Chosen o = (t : ℕ) × (us : Users) × (o ≡ some (t, us))

ready-Chosen :
    (fuel : ℕ) (c : Choice)
    → 0 < c.users.root.has_run
    → ready c.users.root.procs ≡ true
    → Chosen (choose_task (suc fuel) c)
unfolding Chosen
ready-Chosen fuel c h r =
    let ((t, e), pos) = pass-Found c h r in
    (t, (pass c).users, choose_task-stop fuel c t (omega arith) e)

refilled-Chosen :
    (fuel : ℕ) (c : Choice) (p : Proc) (ps : List Proc)
    → c.users.root.procs ≡ p ∷ ps
    → Chosen (choose_task (suc fuel) (record c { users = reset_all c.users }))
refilled-Chosen fuel c p ps e =
    ready-Chosen fuel (record c { users = reset_all c.users })
      (unfold reset_all refill_all in omega arith)
      (unfold reset_all refill_all in (rw e (ready-refill p ps)))

counting-Chosen :
    (fuel : ℕ) (c : Choice) (p : Proc) (ps : List Proc)
    → 0 < c.users.root.has_run
    → c.users.root.procs ≡ p ∷ ps
    → c.run_task ≡ none
    → Chosen (choose_task (suc (suc fuel)) c)
counting-Chosen fuel c p ps h e idle = elim (Bool-cases (ready c.users.root.procs)) [
  | inl now ↦ ready-Chosen (suc fuel) c h now
  | inr later ↦
      let same = pass-none c h later idle in
      subst Chosen
        (sym (
          choose_task-all (suc fuel) c
            (λ z. absurd (omega (arith, z, ap (λ (q : Choice). q.count) same)))
            (ap (λ (q : Choice). q.run_task) same)))
        (refilled-Chosen fuel (pass c) p ps (ap (λ (q : Choice). q.users.root.procs) same ∙ e))
]

-- If root has a process, `schedule` finds a task to run after at most two jumps, whatever the
-- counters are.
pub choose_task-total :
    (fuel : ℕ) (us : Users) (p : Proc) (ps : List Proc)
    → 2 < fuel
    → us.root.procs ≡ p ∷ ps
    → (t : ℕ) × (us' : Users) × (choose_task fuel (fresh us) ≡ some (t, us'))
unfolding Chosen reset_users refill_user
choose_task-total zero us p ps f e = absurd (omega arith)
choose_task-total (suc zero) us p ps f e = absurd (omega arith)
choose_task-total (suc (suc zero)) us p ps f e = absurd (omega arith)
choose_task-total (suc (suc (suc fuel))) us p ps f e = elim (dec_lt 0 us.root.has_run) [
  | yes counting ↦ counting-Chosen (suc fuel) (fresh us) p ps counting e refl
  | no idle ↦
      let same = pass-idle (fresh us) (omega arith) refl in
      subst Chosen
        (sym (choose_task-users (suc (suc fuel)) (fresh us) (ap (λ (q : Choice). q.count) same)))
        (counting-Chosen fuel
          (record (pass (fresh us)) { users = reset_users (pass (fresh us)).users }) p ps
          (omega arith) (ap (λ (q : Choice). q.users.root.procs) same ∙ e)
          (ap (λ (q : Choice). q.run_task) same))
]

-- The measure of the livelock: no task, and root has no process.
abbrev Stuck : Choice → Type 0
Stuck c = (c.run_task ≡ none) × (c.users.root.procs ≡ [])

pass-Stuck : (c : Choice) → Stuck c → Stuck (pass c)
unfolding try_root try_others take_first
pass-Stuck c (idle, empty) = ground arith

Stuck-none : (f : ℕ) (c : Choice) → Stuck c → choose_task f c ≡ none
unfolding choose_task reset_users refill_user reset_all refill_all
Stuck-none zero c s = refl
Stuck-none (suc f) c s =
    let next = pass-Stuck c s in
    elim (Bool-cases ((pass c).count == 0)) [
      | inl now ↦
          rw now
            (Stuck-none f (record (pass c) { users = reset_users (pass c).users }) (next.0, next.1))
      | inr later ↦
          rw (later, next.0)
            (Stuck-none f (record (pass c) { users = reset_all (pass c).users })
              (next.0, ap (map refill_proc) next.1))
    ]

-- If root has no process, `schedule` never leaves the loop: no number of jumps is enough, whatever
-- processes the other users have.
pub choose_task-livelock :
    (fuel : ℕ) (us : Users) → us.root.procs ≡ [] → choose_task fuel (fresh us) ≡ none
choose_task-livelock fuel us e = Stuck-none fuel (fresh us) (refl, e)
