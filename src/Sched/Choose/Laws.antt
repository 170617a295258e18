-- ===== src/Sched/Choose/Laws.antt =====
-- What `choose_task` does to the counters, and whose processes it can choose.
use os_design.Prelude.{
  ℕ, zero, suc, ◌≤◌, ◌≡◌, refl, List, [], ◌∷◌, map, Option, none, some, ltb, ◌==◌, if◌then◌else◌,
  arith, ◌⊎◌, inl, inr, Bool-cases,
}
use mathlib.Core.Path.{subst}
use os_design.Sched.Choose.{
  Proc, User, Users, Choice, take_first, try_root, try_user, try_users, try_others, refill_user,
  refill_proc, reset_users, refill_all, reset_all, choose_task, fresh, pass,
}

pub Option-cases : (o : Option ℕ) → (o ≡ none) ⊎ ((t : ℕ) × (o ≡ some t))
Option-cases none = inl refl
Option-cases (some t) = inr (t, refl)

-- What every part of a turn keeps holds when the choice is made.
module _ {ℓ} (P : Choice → Type ℓ) (on_pass : (c : Choice) → P c → P (pass c))
    (on_users : (c : Choice) → P c → P (record c { users = reset_users c.users }))
    (on_all : (c : Choice) → P c → P (record c { users = reset_all c.users })) where
  pub choose_task-keeps :
      (fuel : ℕ) (c : Choice) (t : ℕ) (us : Users)
      → P c
      → choose_task fuel c ≡ some (t, us)
      → (c' : Choice) × P c' × (c'.run_task ≡ some t) × (c'.users ≡ us)
  unfolding choose_task
  choose_task-keeps zero c t us p h = cc
  choose_task-keeps (suc fuel) c t us p h = elim (Bool-cases ((pass c).count == 0)) [
    | inl now ↦
        choose_task-keeps fuel (record (pass c) { users = reset_users (pass c).users }) t us
          (on_users (pass c) (on_pass c p)) (rw now at h)
    | inr later ↦ elim (Option-cases (pass c).run_task) [
      | inl idle ↦
          choose_task-keeps fuel (record (pass c) { users = reset_all (pass c).users }) t us
            (on_all (pass c) (on_pass c p)) (rw (later, idle) at h)
      | inr (x, e) ↦
          let found = rw (later, e) at h in (pass c, on_pass c p, ground arith, ground arith)
    ]
  ]

abbrev pub AllP {ℓ κ} : {A : Type ℓ} → (A → Type κ) → List A → Type κ
AllP P [] = Unit
AllP P (x ∷ xs) = P x × AllP P xs

-- A process runs at most twice between two resets if it is a super process, and else once.
abbrev pub quota : Proc → ℕ
quota p = if p.super == 1 then 2 else 1

abbrev pub InQuota : Proc → Type 0
InQuota p = p.has_run ≤ quota p

abbrev pub UserInQuota : User → Type 0
UserInQuota u = (u.has_run ≤ 1) × AllP InQuota u.procs

abbrev pub UsersInQuota : Users → Type 0
UsersInQuota us = UserInQuota us.root × AllP UserInQuota us.others

take_first-InQuota :
    (ps : List Proc) (run : Option ℕ) → AllP InQuota ps → AllP InQuota (take_first ps run).1
unfolding take_first
take_first-InQuota [] run h = h
take_first-InQuota (p ∷ ps) run h = elim (Bool-cases (ltb 0 p.has_run)) [
  | inl now ↦ rw now (omega arith, h.1)
  | inr later ↦ rw later (h.0, take_first-InQuota ps run h.1)
]

try_users-InQuota :
    (us : List User) (run : Option ℕ) (count : ℕ)
    → AllP UserInQuota us
    → AllP UserInQuota (try_users us run count).2
unfolding try_users
try_users-InQuota [] run count h = h
try_users-InQuota (u ∷ us) run count h =
    let here : UserInQuota (try_user u run count).2 =
      unfold try_user in
      elim (Bool-cases (ltb 0 u.has_run)) [
        | inl now ↦ rw now (omega arith, h.0.1)
        | inr later ↦ rw later h.0
      ] in
    elim (Option-cases (try_user u run count).0) [
      | inl idle ↦
          rw (try_users, idle)
            (here, try_users-InQuota us (try_user u run count).0 (try_user u run count).1 h.1)
      | inr (t, e) ↦ rw (try_users, e) (here, h.1)
    ]

try_root-InQuota : (c : Choice) → UsersInQuota c.users → UsersInQuota (try_root c).users
unfolding try_root
try_root-InQuota c h = elim (Bool-cases (ltb 0 c.users.root.has_run)) [
  | inl now ↦ rw now ((omega arith, take_first-InQuota c.users.root.procs c.run_task h.0.1), h.1)
  | inr later ↦ rw later h
]

try_others-InQuota : (c : Choice) → UsersInQuota c.users → UsersInQuota (try_others c).users
unfolding try_others
try_others-InQuota c h = elim (Option-cases c.run_task) [
  | inl idle ↦ rw idle h
  | inr (t, e) ↦ rw e (h.0, try_users-InQuota c.users.others (some t) c.count h.1)
]

refill_proc-InQuota : (ps : List Proc) → AllP InQuota (map refill_proc ps)
unfolding refill_proc
refill_proc-InQuota [] = tt
refill_proc-InQuota (p ∷ ps) = (ground arith, refill_proc-InQuota ps)

reset_users-InQuota : (us : List User) → AllP UserInQuota us → AllP UserInQuota (map refill_user us)
unfolding refill_user
reset_users-InQuota [] h = tt
reset_users-InQuota (u ∷ us) h = ((omega arith, h.0.1), reset_users-InQuota us h.1)

reset_all-InQuota : (us : List User) → AllP UserInQuota (map refill_all us)
unfolding refill_all
reset_all-InQuota [] = tt
reset_all-InQuota (u ∷ us) = ((omega arith, refill_proc-InQuota u.procs), reset_all-InQuota us)

-- The choice keeps every counter within its quota: a user's at most 1, a super process's at most 2
-- and any other process's at most 1.
pub choose_task-InQuota :
    (fuel : ℕ) (us : Users) (t : ℕ) (us' : Users)
    → UsersInQuota us
    → choose_task fuel (fresh us) ≡ some (t, us')
    → UsersInQuota us'
choose_task-InQuota fuel us t us' h e =
    let (c, q, _, same) =
      choose_task-keeps (λ c. UsersInQuota c.users)
        (λ c q. try_others-InQuota (try_root c) (try_root-InQuota c q))
        (λ c q.
          unfold reset_users refill_user in
          ((omega arith, q.0.1), reset_users-InQuota c.users.others q.1))
        (λ c q.
          unfold reset_all in
          (
            unfold refill_all in (omega arith, refill_proc-InQuota c.users.root.procs),
            reset_all-InQuota c.users.others,
          ))
        fuel (fresh us) t us' h e in
    subst UsersInQuota same q
