-- ===== src/Fork/Making.antt =====
-- `do_fork`: who may make a process, the numbers and counts it takes, the split of the time slice, and the
-- way back from every failure.
use operation_systems.Common.{
  ℕ, ◌+◌, ◌-◌, ◌/◌, ◌%◌, Bool, true, not, ◌&&◌, Option, none, some, List, [], ◌∷◌, map, leb, ◌==◌,
  if◌then◌else◌,
}
use operation_systems.Common.Int.{ℤ, pos, negsuc, ◌==ℤ◌}
use operation_systems.Sched.Task.{Task, is_short, uninterruptible}
use operation_systems.Sched.Queue.{Rq, update, put_task}
use operation_systems.Sched.Wake.{word, wake_up_forked_process}
use operation_systems.Sched.Tick.{scheduler_tick}
use operation_systems.Sched.Policies.{eperm, einval}
use operation_systems.Fork.Pids.{Ids, Cursor, get_pid}

abbrev pub enomem : ℤ
enomem = negsuc 11

abbrev pub eagain : ℤ
eagain = negsuc 10

-- The bits of `clone_flags` that are read here.
pub record CloneFlags : Type 0 where
  pub newns : Bool
  pub fs : Bool
  pub pid : Bool
  pub vfork : Bool
  pub thread : Bool

-- What the calls from `do_fork` answer: the number of the struct, if there is memory for one; the limits
-- and capabilities; whether each copy fails, in order; and the result of `copy_thread`.
pub record Answers : Type 0 where
  pub new_struct : Option ℕ
  pub rlim_cur : ℕ
  pub max_threads : ℕ
  pub cap_sys_admin : Bool
  pub cap_sys_resource : Bool
  pub copies_fail : List Bool
  pub copy_thread : ℤ

-- The run queue; the numbers of each task; the tasks that `SET_LINKS` has linked, and how many they are;
-- the counts of the user of the current task; `last_pid` and `next_safe`.
pub record Procs : Type 0 where
  pub rq : Rq
  pub ids : ℕ → Ids
  pub linked : List ℕ
  pub nr_threads : ℕ
  pub user_count : ℕ
  pub processes : ℕ
  pub total_forks : ℕ
  pub cursor : Cursor

-- `atomic_inc` of the two counts of the user, and the way back with `free_uid`.
abbrev pub count_process : Procs → Procs
count_process s = record s { user_count = s.user_count + 1; processes = s.processes + 1 }

abbrev pub uncount_process : Procs → Procs
uncount_process s = record s { user_count = s.user_count - 1; processes = s.processes - 1 }

-- `copy_files` to `copy_thread`: the error of the first that fails.
abbrev pub copy_error : List Bool → ℤ → ℤ
copy_error [] retval = retval
copy_error (fails ∷ later) retval = if fails then enomem else copy_error later retval

module _ (hz jiffies : ℕ) where
  -- The child's fields, from the struct of its parent.
  abbrev pub child_of : Task → Task
  child_of t = record t {
    state = uninterruptible;
    array = none;
    time_slice = (t.time_slice + 1) % word / 2;
    first_time_slice = true;
    sleep_timestamp = jiffies;
  }

  -- The current task's slice is shared with `p`; `none` is BUG().
  unfoldable pub share_slice : ℕ → Rq → Option Rq
  share_slice p rq =
      let t : Task = rq.task rq.curr in
      let rq' = put_task p (child_of t) rq in
      let half : ℕ = t.time_slice / 2 in
      if t.time_slice == 0
      then none
      else if half == 0
      then some (scheduler_tick hz jiffies (put_task rq.curr (record t { time_slice = 1 }) rq'))
      else some (put_task rq.curr (record t { time_slice = half }) rq')

  abbrev pub child_ids : CloneFlags → ℕ → Ids → Ids
  child_ids flags n current = record current {
    pid = n;
    tgid = if flags.thread then current.tgid else n;
  }

  -- `SET_LINKS`, and the child made runnable. With CLONE_VFORK the parent then waits for it.
  abbrev pub let_it_rip : CloneFlags → ℕ → ℕ → Procs → Rq → Procs
  let_it_rip flags p n s rq =
      let rq' = wake_up_forked_process hz jiffies p rq in
      record s {
        ids = update s.ids p (child_ids flags n (s.ids rq.curr));
        linked = p ∷ s.linked;
        nr_threads = s.nr_threads + 1;
        total_forks = s.total_forks + 1;
        rq =
            if flags.vfork
            then rq'
            else put_task rq.curr (record (rq'.task rq.curr) { need_resched = true }) rq';
      }

  abbrev pub rip_shared : CloneFlags → ℕ → ℕ → Procs → Option Rq → Option (ℤ × Procs)
  rip_shared flags p n s none = none
  rip_shared flags p n s (some rq) = some (pos n, let_it_rip flags p n s rq)

  -- After `get_pid`.
  abbrev pub with_pid : Answers → CloneFlags → ℕ → Procs → Option (ℕ × Cursor) → Option (ℤ × Procs)
  with_pid a flags p s none = none
  with_pid a flags p s (some (n, c)) =
      let s' = record s { cursor = c } in
      let retval = copy_error a.copies_fail a.copy_thread in
      if n == 0 && not ((s.ids s.rq.curr).pid == 0)
      then some (eagain, uncount_process s')
      else if not (retval ==ℤ pos 0)
      then some (retval, uncount_process s')
      else rip_shared flags p n s' (share_slice p s.rq)

  -- `get_pid` with the flag CLONE_PID.
  abbrev pub pid_for : CloneFlags → Procs → Option (ℕ × Cursor)
  pid_for flags s =
      if flags.pid
      then some ((s.ids s.rq.curr).pid, s.cursor)
      else get_pid (map s.ids s.linked) s.cursor

  abbrev pub with_struct : Answers → CloneFlags → Procs → Option ℕ → Option (ℤ × Procs)
  with_struct a flags s none = some (enomem, s)
  with_struct a flags s (some p) =
      let s' = count_process s in
      if leb a.rlim_cur s.processes && (not a.cap_sys_admin && not a.cap_sys_resource)
      then some (eagain, s)
      else if leb a.max_threads s'.nr_threads
      then some (eagain, uncount_process s')
      else with_pid a flags p s' (pid_for flags s')

  unfoldable pub do_fork : Answers → CloneFlags → Procs → Option (ℤ × Procs)
  do_fork a flags s =
      if is_short (s.rq.task s.rq.curr).policy
      then some (eperm, s)
      else if flags.newns && flags.fs
      then some (einval, s)
      else if flags.pid && not ((s.ids s.rq.curr).pid == 0)
      then some (eperm, s)
      else with_struct a flags s a.new_struct
