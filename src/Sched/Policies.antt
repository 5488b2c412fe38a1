-- ===== src/Sched/Policies.antt =====
-- `setscheduler`, and the calls that read and set the policy of a task.
use operation_systems.Common.{
  ℕ, ◌+◌, ◌-◌, ◌*◌, ◌/◌, ◌%◌, Bool, true, false, ◌&&◌, ◌||◌, not, Option, some, none, ◌==◌,
  if◌then◌else◌,
}
use operation_systems.Common.Int.{ℤ, pos, negsuc, pos_part, neg_part, ltb_ℤ, ◌==ℤ◌}
use operation_systems.Sched.Task.{Policy, other, fifo, rr, short, is_short, Task}
use operation_systems.Sched.Queue.{Rq, put_task, resched_task}
use operation_systems.Sched.Wake.{word, is_other, activate_task, deactivate_task}

abbrev pub eperm : ℤ
eperm = negsuc 0

abbrev pub esrch : ℤ
esrch = negsuc 2

abbrev pub efault : ℤ
efault = negsuc 13

abbrev pub einval : ℤ
einval = negsuc 21

-- `struct sched_param`
pub record SchedParam : Type 0 where
  pub sched_priority : ℤ
  pub requested_time : ℤ
  pub sched_short_prio : ℤ

abbrev pub policy_number : Policy → ℤ
policy_number other = pos 0
policy_number fifo = pos 1
policy_number rr = pos 2
policy_number short = pos 5

-- A negative number asks for the policy that the task has.
abbrev pub decode_policy : Policy → ℤ → Option Policy
decode_policy current n =
    if ltb_ℤ n (pos 0)
    then some current
    else if n ==ℤ pos 0
    then some other
    else if n ==ℤ pos 1
    then some fifo
    else if n ==ℤ pos 2
    then some rr
    else if n ==ℤ pos 5
    then some short
    else none

abbrev pub outside : ℤ → ℤ → ℤ → Bool
outside lo hi x = ltb_ℤ x lo || ltb_ℤ hi x

-- An int stored in an `unsigned long`.
abbrev pub to_word : ℤ → ℕ
to_word x = (pos_part x + word - neg_part x) % word

-- `(policy == SCHED_OTHER) != (lp.sched_priority == 0)`
abbrev pub mismatch : Bool → Bool → Bool
mismatch true zero_priority = not zero_priority
mismatch false zero_priority = zero_priority

abbrev pub is_realtime : Policy → Bool
is_realtime policy = not (is_other policy) && not (is_short policy)

-- `capable` is `capable(CAP_SYS_NICE)` of the current task.
abbrev pub may_change : Bool → Task → Task → Bool
may_change capable current p = current.euid == p.euid || current.euid == p.uid || capable

-- The checks once the policy is known; `none` lets the call through.
unfoldable pub check_param : Bool → Task → Task → Policy → SchedParam → Option ℤ
check_param capable current p policy lp =
    if not (is_short policy)
      && (outside (pos 0) (pos 99) lp.sched_priority
          || mismatch (is_other policy) (lp.sched_priority ==ℤ pos 0))
    then some einval
    else if is_realtime policy && not capable
    then some eperm
    else if not (may_change capable current p)
    then some eperm
    else none

-- The checks before the policy is known, in the order of the code.
unfoldable pub check_short : Task → ℤ → SchedParam → Option ℤ
check_short p policy lp =
    if policy ==ℤ pos 5
      && (outside (pos 1) (pos 3000) lp.requested_time
          || outside (pos 0) (pos 139) lp.sched_short_prio)
    then some einval
    else if is_short p.policy || (not (is_other p.policy) && policy ==ℤ pos 5)
    then some eperm
    else none

module _ (hz : ℕ) (jiffies : ℕ) where
  -- `requested_time` milliseconds in ticks, but at least one.
  abbrev pub short_ticks : ℕ → ℕ
  short_ticks requested = if requested * hz / 1000 == 0 then 1 else requested * hz / 1000

  abbrev pub with_policy : Policy → SchedParam → Task → Task
  with_policy short lp p = record p {
    policy = short;
    rt_priority = to_word lp.sched_priority;
    short_prio = pos_part lp.sched_short_prio;
    requested_time = pos_part lp.requested_time;
    time_left = short_ticks (pos_part lp.requested_time);
  }
  with_policy other lp p = record p {
    policy = other;
    rt_priority = to_word lp.sched_priority;
    prio = p.static_prio;
  }
  with_policy fifo lp p = record p {
    policy = fifo;
    rt_priority = to_word lp.sched_priority;
    prio = 99 - to_word lp.sched_priority;
  }
  with_policy rr lp p = record p {
    policy = rr;
    rt_priority = to_word lp.sched_priority;
    prio = 99 - to_word lp.sched_priority;
  }

  -- The change itself, with the task out of its array meanwhile.
  abbrev pub move_policy : ℕ → Policy → SchedParam → Rq → Option ℕ → Rq
  move_policy p policy lp rq none = put_task p (with_policy policy lp (rq.task p)) rq
  move_policy p policy lp rq (some i) =
      let out = deactivate_task p i rq in
      activate_task hz jiffies p (put_task p (with_policy policy lp (out.task p)) out)

  unfoldable pub change_policy : ℕ → Policy → SchedParam → Rq → Rq
  change_policy p policy lp rq =
      let rq' = move_policy p policy lp rq (rq.task p).array in
      if is_short policy then resched_task rq'.curr rq' else rq'

  abbrev pub finish : ℕ → Policy → SchedParam → Rq → Option ℤ → ℤ × Rq
  finish p policy lp rq none = (pos 0, change_policy p policy lp rq)
  finish p policy lp rq (some e) = (e, rq)

  abbrev pub with_decoded : Bool → ℕ → SchedParam → Rq → Option Policy → ℤ × Rq
  with_decoded capable p lp rq none = (einval, rq)
  with_decoded capable p lp rq (some policy) =
      finish p policy lp rq (check_param capable (rq.task rq.curr) (rq.task p) policy lp)

  abbrev pub with_checked : Bool → ℕ → ℤ → SchedParam → Rq → Option ℤ → ℤ × Rq
  with_checked capable p policy lp rq (some e) = (e, rq)
  with_checked capable p policy lp rq none =
      with_decoded capable p lp rq (decode_policy (rq.task p).policy policy)

  -- `setscheduler` for the task `p` that `find_process_by_pid` gives, from the copied parameters on.
  unfoldable pub set_policy : Bool → ℤ → SchedParam → Rq → Option ℕ → ℤ × Rq
  set_policy capable policy lp rq none = (esrch, rq)
  set_policy capable policy lp rq (some p) =
      with_checked capable p policy lp rq (check_short (rq.task p) policy lp)

  abbrev pub with_copy : Bool → ℤ → Rq → Option ℕ → Option SchedParam → ℤ × Rq
  with_copy capable policy rq found none = (efault, rq)
  with_copy capable policy rq found (some lp) = set_policy capable policy lp rq found

  -- `param_null` is `!param`; `copy` is what copy_from_user brings, `none` if it fails; `find` is
  -- `find_process_by_pid`.
  unfoldable pub setscheduler :
      (ℤ → Option ℕ) → Bool → Bool → ℤ → ℤ → Option SchedParam → Rq → ℤ × Rq
  setscheduler find capable param_null pid policy copy rq =
      if param_null || ltb_ℤ pid (pos 0)
      then (einval, rq)
      else with_copy capable policy rq (find pid) copy

abbrev pub number_of : Rq → Option ℕ → ℤ
number_of rq none = esrch
number_of rq (some p) = policy_number (rq.task p).policy

-- `sys_sched_getscheduler`
unfoldable pub sched_getscheduler : (ℤ → Option ℕ) → ℤ → Rq → ℤ
sched_getscheduler find pid rq = if ltb_ℤ pid (pos 0) then einval else number_of rq (find pid)

-- `sys_sched_get_priority_max`, and `…_min`: neither knows SCHED_SHORT.
unfoldable pub sched_get_priority_max : ℤ → ℤ
sched_get_priority_max policy =
    if policy ==ℤ pos 1 || policy ==ℤ pos 2
    then pos 99
    else if policy ==ℤ pos 0
    then pos 0
    else einval

unfoldable pub sched_get_priority_min : ℤ → ℤ
sched_get_priority_min policy =
    if policy ==ℤ pos 1 || policy ==ℤ pos 2
    then pos 1
    else if policy ==ℤ pos 0
    then pos 0
    else einval
