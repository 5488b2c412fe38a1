-- ===== src/Sessions/Groups.antt =====
-- `sys_setpgid`, `sys_getpgid`, `sys_getpgrp`, `sys_getsid` and `sys_setsid`.
use operation_systems.Common.{
  ℕ, Bool, true, false, ◌&&◌, ◌||◌, not, Option, none, some, List, [], ◌∷◌, ◌==◌, if◌then◌else◌,
}
use operation_systems.Common.Int.{ℤ, pos, negsuc, ltb_ℤ, ◌==ℤ◌}

abbrev pub eperm : ℤ
eperm = negsuc 0

abbrev pub esrch : ℤ
esrch = negsuc 2

abbrev pub eacces : ℤ
eacces = negsuc 12

abbrev pub einval : ℤ
einval = negsuc 21

-- `p_pptr` and `p_opptr` are the present and the original parent, as numbers of tasks.
pub record Proc : Type 0 where
  pub pid : ℤ
  pub pgrp : ℤ
  pub session : ℤ
  pub leader : Bool
  pub did_exec : Bool
  pub p_pptr : ℕ
  pub p_opptr : ℕ
  pub has_tty : Bool
  pub tty_old_pgrp : ℤ

-- The tasks by number, those that `for_each_task` runs over, and the current one.
pub record Procs : Type 0 where
  pub task : ℕ → Proc
  pub listed : List ℕ
  pub current : ℕ

abbrev pub put_proc : ℕ → Proc → Procs → Procs
put_proc p t s = record s { task = λ q. if p == q then t else s.task q }

-- The inner loop of `setpgid`: some task is in the group and in the caller's session.
unfoldable pub has_group : (ℕ → Proc) → ℤ → ℤ → List ℕ → Bool
has_group task pgid session [] = false
has_group task pgid session (p ∷ tasks) =
    let rest = has_group task pgid session tasks in
    if (task p).pgrp ==ℤ pgid && (task p).session ==ℤ session then true else rest

-- The tests on the task that is named; `none` lets the call go on.
abbrev pub check_named : ℕ → Procs → Option ℤ
check_named p s =
    if (s.task p).p_pptr == s.current || (s.task p).p_opptr == s.current
    then (if not ((s.task p).session ==ℤ (s.task s.current).session)
        then some eperm
        else if (s.task p).did_exec
        then some eacces
        else none)
    else if not (p == s.current)
    then some esrch
    else none

abbrev pub join_group : ℕ → ℤ → ℤ → Procs → Option ℤ → ℤ × Procs
join_group p pid pgid s (some err) = (err, s)
join_group p pid pgid s none =
    if (s.task p).leader
    then (eperm, s)
    else if not (pgid ==ℤ pid) && not (has_group s.task pgid (s.task s.current).session s.listed)
    then (eperm, s)
    else (pos 0, put_proc p (record (s.task p) { pgrp = pgid }) s)

abbrev pub join_found : ℤ → ℤ → Procs → Option ℕ → ℤ × Procs
join_found pid pgid s none = (esrch, s)
join_found pid pgid s (some p) = join_group p pid pgid s (check_named p s)

-- `find` is `find_task_by_pid`.
unfoldable pub setpgid : (ℤ → Option ℕ) → ℤ → ℤ → Procs → ℤ × Procs
setpgid find pid pgid s =
    let pid' : ℤ = if pid ==ℤ pos 0 then (s.task s.current).pid else pid in
    let pgid' : ℤ = if pgid ==ℤ pos 0 then pid' else pgid in
    if ltb_ℤ pgid' (pos 0) then (einval, s) else join_found pid' pgid' s (find pid')

abbrev pub of_found : (Proc → ℤ) → Procs → Option ℕ → ℤ
of_found field s none = esrch
of_found field s (some p) = field (s.task p)

unfoldable pub getpgid : (ℤ → Option ℕ) → ℤ → Procs → ℤ
getpgid find pid s =
    if pid ==ℤ pos 0 then (s.task s.current).pgrp else of_found (λ t. t.pgrp) s (find pid)

unfoldable pub getpgrp : Procs → ℤ
getpgrp s = (s.task s.current).pgrp

unfoldable pub getsid : (ℤ → Option ℕ) → ℤ → Procs → ℤ
getsid find pid s =
    if pid ==ℤ pos 0 then (s.task s.current).session else of_found (λ t. t.session) s (find pid)

-- The loop of `setsid`: some task is in the group of the number.
unfoldable pub in_use : (ℕ → Proc) → ℤ → List ℕ → Bool
in_use task pid [] = false
in_use task pid (p ∷ tasks) =
    let rest = in_use task pid tasks in if (task p).pgrp ==ℤ pid then true else rest

unfoldable pub setsid : Procs → ℤ × Procs
setsid s =
    let me = s.task s.current in
    if in_use s.task me.pid s.listed then (eperm, s) else (
      me.pid,
      put_proc s.current
          (record me {
            leader = true;
            session = me.pid;
            pgrp = me.pid;
            has_tty = false;
            tty_old_pgrp = pos 0;
          })
          s,
    )
