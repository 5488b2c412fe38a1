-- ===== src/Sched/Setprio.antt =====
-- `proc_sel`, `sys_setpriority` and `sys_getpriority` of HW2/kernel/sys.c.
use operation_systems.Common.{
  ℕ, Bool, true, false, ◌&&◌, ◌||◌, not, List, [], ◌∷◌, ◌==◌, if◌then◌else◌,
}
use operation_systems.Common.Int.{ℤ, pos, negsuc, ◌-ℤ◌, ltb_ℤ, ◌==ℤ◌}
use operation_systems.Sched.Task.{is_short}
use operation_systems.Sched.Queue.{Rq}
use operation_systems.Sched.Nice.{set_user_nice, task_nice, clamp_ℤ, lowest_nice, highest_nice}
use operation_systems.Sched.Policies.{eperm, esrch, einval, to_word}

abbrev pub eacces : ℤ
eacces = negsuc 12

-- The numbers of a task that `proc_sel` reads besides its user.
pub record Ident : Type 0 where
  pub pid : ℤ
  pub pgrp : ℤ

-- PRIO_PROCESS, PRIO_PGRP and PRIO_USER are 0, 1 and 2.
unfoldable pub proc_sel : (ℕ → Ident) → Rq → ℕ → ℤ → ℤ → Bool
proc_sel ident rq p which who =
    let anyone : Bool = who ==ℤ pos 0 in
    let me = rq.curr in
    if (ident p).pid ==ℤ pos 0
    then false
    else if which ==ℤ pos 0
    then (if anyone && p == me then true else (ident p).pid ==ℤ who)
    else if which ==ℤ pos 1
    then (ident p).pgrp ==ℤ (if anyone then (ident me).pgrp else who)
    else if which ==ℤ pos 2
    then (rq.task p).uid == (if anyone then (rq.task me).uid else to_word who)
    else false

-- One round of the loop, for a task that is selected.
unfoldable pub renice_one : Bool → ℤ → ℕ → ℤ × Rq → ℤ × Rq
renice_one capable nice p (error, rq) =
    let t = rq.task p in
    let me = rq.task rq.curr in
    let error' : ℤ = if error ==ℤ esrch then pos 0 else error in
    if not (t.uid == me.euid) && not (t.uid == me.uid) && not capable
    then (eperm, rq)
    else if ltb_ℤ nice (task_nice t) && not capable
    then (eacces, rq)
    else (if is_short t.policy then eperm else error', set_user_nice p nice rq)

-- The loop over the tasks.
unfoldable pub renice_all : (ℕ → Ident) → Bool → ℤ → ℤ → ℤ → List ℕ → ℤ × Rq → ℤ × Rq
renice_all ident capable which who nice [] acc = acc
renice_all ident capable which who nice (p ∷ tasks) acc =
    renice_all ident capable which who nice tasks
      (if proc_sel ident acc.1 p which who then renice_one capable nice p acc else acc)

-- `tasks` is what `for_each_task` runs over; `capable` is `capable(CAP_SYS_NICE)`.
unfoldable pub setpriority : (ℕ → Ident) → Bool → List ℕ → ℤ → ℤ → ℤ → Rq → ℤ × Rq
setpriority ident capable tasks which who niceval rq =
    if ltb_ℤ (pos 2) which || ltb_ℤ which (pos 0)
    then (einval, rq)
    else renice_all ident capable which who (clamp_ℤ lowest_nice highest_nice niceval) tasks
        (esrch, rq)

unfoldable pub best_of : (ℕ → Ident) → Rq → ℤ → ℤ → List ℕ → ℤ → ℤ
best_of ident rq which who [] retval = retval
best_of ident rq which who (p ∷ tasks) retval =
    let niceval : ℤ = pos 20 -ℤ task_nice (rq.task p) in
    best_of ident rq which who tasks
      (if proc_sel ident rq p which who && ltb_ℤ retval niceval then niceval else retval)

unfoldable pub getpriority : (ℕ → Ident) → List ℕ → ℤ → ℤ → Rq → ℤ
getpriority ident tasks which who rq =
    if ltb_ℤ (pos 2) which || ltb_ℤ which (pos 0)
    then einval
    else best_of ident rq which who tasks esrch
