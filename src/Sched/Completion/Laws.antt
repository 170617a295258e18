-- ===== src/Sched/Completion/Laws.antt =====
-- The waiters of a completion and the calls that are to be taken.
use os_design.Prelude.{
  ℕ, ◌+◌, ◌-◌, ◌≤◌, ◌≡◌, refl, ◌⊎◌, inl, inr, length, false, ◌==◌, ℕ_discrete, Bool-cases, arith,
}
use os_design.Prelude.Int.{pos}
use os_design.Sched.Task.{Headers}
use os_design.Sched.Idle.{Cpus, Kernel}
use os_design.Sched.Wake.{complete, list_del, wake_up_process, wake_up_common}
use os_design.Sched.Wake.Common.{wake_up_common-Woke}
use os_design.Sched.Wake.Laws.{try_to_wake_up-Woken}
use os_design.Sched.Completion.{
  System, begin_wait, resume, completes, Step, enters, goes_on, signals, leaves, wakes, Reach, here,
  next,
}
use os_design.Sched.Completion.Awake.{mode, awake, Wakens, awake-Wakens, woken-awake, remove-awake}

module _ (h : Headers) (cpus : Cpus) where
  -- Each call of `complete` is still to be taken, or was taken by one return, and as many waiters
  -- are awake as calls are to be taken, or all are.
  record Sound (s : System) : Type 0 where
    account : s.x.done + s.returned ≡ s.completed
    ready :
        (s.x.done ≤ awake h cpus s.kernel s.x.wait)
        ⊎ (length s.x.wait ≤ awake h cpus s.kernel s.x.wait)

  begin_wait-Sound : (s : System) (t : ℕ) → Sound s → Sound (begin_wait h cpus s t)
  unfolding begin_wait
  begin_wait-Sound s t i = elim (Bool-cases (s.x.done == 0)) [
    | inl zero' ↦ rw zero' record { account = i.account; ready = inl (ground arith) }
    | inr more ↦ rw more record {
      account = ground (arith, i.account);
      ready = elim i.ready [ inl a ↦ inl (omega (arith, a)) | inr b ↦ inr b ];
    }
  ]

  resume-Sound : (s : System) (t : ℕ) → Sound s → Sound (resume h cpus s t)
  unfolding resume
  resume-Sound s t i = elim (Bool-cases (s.x.done == 0)) [
    | inl zero' ↦ rw zero' record { account = i.account; ready = inl (ground arith) }
    | inr more ↦
        let (less, rest) = remove-awake h cpus s.kernel s.x.wait t in
        rw more record {
          account = ground (arith, i.account);
          ready = elim i.ready [
            | inl a ↦ inl (ground arith)
            | inr b ↦ elim rest [
              | inl same ↦ inr (omega (arith, same.0, same.1, b))
              | inr one ↦ inr (omega (arith, one, less, b))
            ]
          ];
        }
  ]

  completes-Sound : (s : System) → Sound s → Sound (completes h cpus s)
  unfolding completes complete
  completes-Sound s i =
      let w = wake_up_common-Woke h cpus (mode h cpus) false s.kernel s.x.wait 0 in
      let k' = wake_up_common h cpus s.kernel s.x.wait (mode h cpus) (pos 1) false in
      record {
        account = omega (arith, i.account);
        ready = elim (woken-awake h cpus s.kernel k' s.x.wait w) [
          | inr all ↦ inr all
          | inl one ↦ elim i.ready [
            | inl a ↦ inl (omega (arith, a, one))
            | inr b ↦ inr (omega (arith, b, one))
          ]
        ];
      }

  wake_up_process-Wakens : (k : Kernel) (t : ℕ) → Wakens h cpus k (wake_up_process h cpus k t).0
  unfolding wake_up_process
  wake_up_process-Wakens k t u out =
      let r = try_to_wake_up-Woken h cpus k t false in
      elim (ℕ_discrete t u) [
        | yes same ↦ rw (← same, r.runs) (h.running-mask (mode h cpus))
        | no other ↦ rw (r.others u other) out
      ]

  leaves-Sound :
      (s : System) (t : ℕ)
      → Sound s
      → Sound (record s {
        kernel = record s.kernel {
          queue = list_del s.kernel.queue t;
          nr_running = s.kernel.nr_running - 1;
        };
      })
  leaves-Sound s t i =
      let k' : Kernel = record s.kernel {
        queue = list_del s.kernel.queue t;
        nr_running = s.kernel.nr_running - 1;
      } in
      let same = awake-Wakens h cpus s.kernel k' (λ q out. out) s.x.wait in
      record {
        account = i.account;
        ready = elim i.ready [
          | inl a ↦ inl (omega (arith, a, same))
          | inr b ↦ inr (omega (arith, b, same))
        ];
      }

  Step-Sound : {s u : System} → Sound s → Step h cpus s u → Sound u
  Step-Sound {s} i (enters t out) = begin_wait-Sound s t i
  Step-Sound {s} i (goes_on t inside runs) = resume-Sound s t i
  Step-Sound {s} i signals = completes-Sound s i
  Step-Sound {s} i (leaves t sleeping) = leaves-Sound s t i
  Step-Sound {s} i (wakes t) =
      let k' : Kernel = (wake_up_process h cpus s.kernel t).0 in
      let more = awake-Wakens h cpus s.kernel k' (wake_up_process-Wakens s.kernel t) s.x.wait in
      record {
        account = i.account;
        ready = elim i.ready [
          | inl a ↦ inl (omega (arith, a, more))
          | inr b ↦ inr (omega (arith, b, more))
        ];
      }

  Reach-Sound : {k : Kernel} {s : System} → Reach h cpus k s → Sound s
  Reach-Sound here = record { account = refl; ready = inl (omega arith) }
  Reach-Sound (next r st) = Step-Sound (Reach-Sound r) st

  -- In whatever order tasks wait for a completion and complete it, the returns of
  -- `wait_for_completion` and the count `done` make the calls of `complete`, so no call lets two
  -- waiters through. Of the waiters as many have been woken as `done` says, or all of them, so no
  -- call is lost while somebody waits. Tasks are woken by others, and leave the run queue, at any
  -- moment.
  pub completion_lem :
      {k : Kernel} {s : System}
      → Reach h cpus k s
      → (s.x.done + s.returned ≡ s.completed)
        × ((s.x.done ≤ awake h cpus s.kernel s.x.wait)
            ⊎ (length s.x.wait ≤ awake h cpus s.kernel s.x.wait))
  completion_lem r = let i = Reach-Sound r in (i.account, i.ready)
