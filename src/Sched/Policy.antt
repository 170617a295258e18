-- ===== src/Sched/Policy.antt =====
-- Project_2/stuff/sched.c: the system calls on priorities and policies.
-- The tables that they look tasks up in, the capability `CAP_SYS_NICE` and the copies from and to
-- user space are parameters.
pub mod Nice
pub mod Set
pub mod Yield
pub mod Interval
mod Tests
use os_design.Prelude.{
  ℕ, zero, suc, ◌+◌, ◌-◌, ◌*◌, ◌/◌, List, Bool, true, false, ◌&&◌, ◌||◌, not, Option, none, some,
  ltb, ◌==◌, if◌then◌else◌, bit_and, bit_or,
}
use os_design.Prelude.Int.{ℤ, pos, negsuc, ◌+ℤ◌, ◌-ℤ◌, eq_ℤ, lt_ℤ, pos_part}
use os_design.Sched.Task.{Headers, Task}
use os_design.Sched.Idle.{Cpus, Kernel, put, resched}
use os_design.Sched.Wake.{move_last_runqueue}

-- A call returns a number, or the negative of an error.
pub data Return : Type 0 where
  ret : ℤ → Return
  einval efault esrch eperm : Return

-- `current`, `find_task_by_pid` and `capable(CAP_SYS_NICE)`.
pub record Env : Type 0 where
  pub current : ℕ
  pub find_task_by_pid : ℤ → Option ℕ
  pub capable : Bool

-- A pointer to a `struct sched_param` in user space: NULL, not accessible, or with a priority.
pub data Param : Type 0 where
  null unreadable : Param
  holds : (sched_priority : ℤ) → Param

-- The two tests that keep a number from `lo` to `hi`.
pub limit : ℤ → ℤ → ℤ → ℤ
limit lo hi n = let m = if lt_ℤ n lo then lo else n in if lt_ℤ hi m then hi else m

module _ (h : Headers) (env : Env) where
  pub find_process_by_pid : ℤ → Option ℕ
  find_process_by_pid pid = if eq_ℤ pid (pos 0) then some env.current else env.find_task_by_pid pid

  pub sys_nice : Kernel → ℤ → Kernel × Return
  sys_nice k increment =
      let inc = limit (negsuc 39) (pos 40) increment in
      let newprio = limit (negsuc 19) (pos 19) ((k.task env.current).nice +ℤ inc) in
      if lt_ℤ increment (pos 0) && not env.capable then (k, eperm) else (
        record k { task = put k.task env.current (record (k.task env.current) { nice = newprio }) },
        ret (pos 0),
      )

  -- `policy == SCHED_OTHER` and the like, on an `int` policy.
  abbrev pub is : ℤ → ℕ → Bool
  is policy c = eq_ℤ policy (pos c)

  abbrev pub realtime : ℤ → Bool
  realtime policy = is policy h.sched_fifo || is policy h.sched_rr

  -- The last stores of `setscheduler`.
  pub store_policy : Kernel → ℕ → ℤ → ℤ → Kernel
  store_policy k p policy prio =
      let set =
        put k.task p
          (record (k.task p) { policy = pos_part policy; rt_priority = pos_part prio }) in
      record k { task = put set env.current (record (set env.current) { need_resched = pos 1 }) }

  -- From the test of the priority on, with the policy that is to be set.
  pub check_policy : Kernel → ℕ → ℤ → ℤ → Kernel × Return
  unfolding store_policy
  check_policy k p policy prio =
      let cur = k.task env.current in
      let own = (cur.euid == (k.task p).euid) || (cur.euid == (k.task p).uid) in
      if lt_ℤ prio (pos 0) || lt_ℤ (pos 99) prio
      then (k, einval)
      else if not (if is policy h.sched_other then eq_ℤ prio (pos 0) else not (eq_ℤ prio (pos 0)))
      then (k, einval)
      else if realtime policy && not env.capable
      then (k, eperm)
      else if not own && not env.capable
      then (k, eperm)
      else (store_policy k p policy prio, ret (pos 0))

  -- From `find_process_by_pid` on.
  pub set_found : Kernel → Option ℕ → ℤ → ℤ → Kernel × Return
  unfolding check_policy
  set_found k none policy prio = (k, esrch)
  set_found k (some p) policy prio =
      if lt_ℤ policy (pos 0)
      then check_policy k p (pos (k.task p).policy) prio
      else if not (realtime policy || is policy h.sched_other)
      then (k, einval)
      else check_policy k p policy prio

  pub setscheduler : Kernel → ℤ → ℤ → Param → Kernel × Return
  setscheduler k pid policy null = (k, einval)
  setscheduler k pid policy unreadable = if lt_ℤ pid (pos 0) then (k, einval) else (k, efault)
  setscheduler k pid policy (holds prio) =
      if lt_ℤ pid (pos 0) then (k, einval) else set_found k (find_process_by_pid pid) policy prio

  pub sys_sched_setscheduler : Kernel → ℤ → ℤ → Param → Kernel × Return
  unfolding setscheduler
  sys_sched_setscheduler k pid policy param = setscheduler k pid policy param

  pub sys_sched_setparam : Kernel → ℤ → Param → Kernel × Return
  unfolding setscheduler
  sys_sched_setparam k pid param = setscheduler k pid (negsuc 0) param

  -- `policy & ~SCHED_YIELD`.
  abbrev pub and_not : ℕ → ℕ → ℕ
  and_not x y = x - bit_and x y

  pub get_found : Kernel → Option ℕ → Return
  get_found k none = esrch
  get_found k (some p) = ret (pos (and_not (k.task p).policy h.sched_yield))

  pub sys_sched_getscheduler : Kernel → ℤ → Return
  unfolding get_found find_process_by_pid
  sys_sched_getscheduler k pid =
      if lt_ℤ pid (pos 0) then einval else get_found k (find_process_by_pid pid)

  -- The priority that is copied out, if `copy_to_user` can write.
  pub param_found : Kernel → Option ℕ → Bool → Return × Option ℕ
  param_found k none writable = (esrch, none)
  param_found k (some p) true = (ret (pos 0), some (k.task p).rt_priority)
  param_found k (some p) false = (efault, none)

  pub sys_sched_getparam : Kernel → ℤ → Option Bool → Return × Option ℕ
  unfolding param_found find_process_by_pid
  sys_sched_getparam k pid none = (einval, none)
  sys_sched_getparam k pid (some writable) =
      if lt_ℤ pid (pos 0) then (einval, none) else param_found k (find_process_by_pid pid) writable

  pub sys_sched_get_priority_max : ℤ → Return
  sys_sched_get_priority_max policy =
      if realtime policy
      then ret (pos 99)
      else if is policy h.sched_other
      then ret (pos 0)
      else einval

  pub sys_sched_get_priority_min : ℤ → Return
  sys_sched_get_priority_min policy =
      if realtime policy
      then ret (pos 1)
      else if is policy h.sched_other
      then ret (pos 0)
      else einval
