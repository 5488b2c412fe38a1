-- ===== src/Sched/Nice.antt =====
-- `set_user_nice`, `sys_nice`, `task_prio` and `task_nice`.
use operation_systems.Common.{
  ℕ, ◌+◌, ◌-◌, Bool, ◌&&◌, ◌||◌, not, Option, some, none, ltb, ◌==◌, if◌then◌else◌,
}
use operation_systems.Common.Int.{ℤ, pos, negsuc, pos_part, neg_part, sub_ℕ, ◌+ℤ◌, ltb_ℤ, ◌==ℤ◌}
use operation_systems.Sched.Task.{is_short, Task, rt_task, prio_to_nice}
use operation_systems.Sched.Queue.{Rq, put_task, dequeue_task, enqueue_task, resched_task}

-- `NICE_TO_PRIO(nice)`; it is used from -20 up, where the difference does not stop at 0.
abbrev pub nice_to_prio : ℤ → ℕ
nice_to_prio nice = 120 + pos_part nice - neg_part nice

abbrev pub lowest_nice : ℤ
lowest_nice = negsuc 19

abbrev pub highest_nice : ℤ
highest_nice = pos 19

-- `static_prio` and `prio` are both set before the test `NICE_TO_PRIO(nice) < p->static_prio`.
abbrev pub renice : ℤ → Task → Task
renice nice t = record t { static_prio = nice_to_prio nice; prio = nice_to_prio nice }

unfoldable pub renice_queued : ℕ → ℤ → ℕ → Rq → Rq
renice_queued p nice i rq =
    let out = dequeue_task p i rq in
    let rq' = enqueue_task p i (put_task p (renice nice (out.task p)) out) in
    if ltb (nice_to_prio nice) (rq'.task p).static_prio || p == rq'.curr
    then resched_task rq'.curr rq'
    else rq'

abbrev pub renice_other : ℕ → ℤ → Rq → Option ℕ → Rq
renice_other p nice rq none = put_task p (renice nice (rq.task p)) rq
renice_other p nice rq (some i) = renice_queued p nice i rq

unfoldable pub set_user_nice : ℕ → ℤ → Rq → Rq
set_user_nice p nice rq =
    let t = rq.task p in
    if is_short t.policy
    then rq
    else if prio_to_nice t.static_prio ==ℤ nice || ltb_ℤ nice lowest_nice || ltb_ℤ highest_nice nice
    then rq
    else if rt_task t
    then put_task p (record t { static_prio = nice_to_prio nice }) rq
    else renice_other p nice rq t.array

abbrev pub clamp_ℤ : ℤ → ℤ → ℤ → ℤ
clamp_ℤ lo hi x = if ltb_ℤ x lo then lo else if ltb_ℤ hi x then hi else x

-- `sys_nice(increment)`; `capable` is `capable(CAP_SYS_NICE)`. The result is 0 or -EPERM.
unfoldable pub sys_nice : Bool → ℤ → Rq → ℤ × Rq
sys_nice capable increment rq =
    let t = rq.task rq.curr in
    let step : ℤ = clamp_ℤ (negsuc 39) (pos 40) increment in
    if is_short t.policy
    then (negsuc 0, rq)
    else if ltb_ℤ increment (pos 0) && not capable
    then (negsuc 0, rq)
    else (
      pos 0,
      set_user_nice rq.curr (clamp_ℤ lowest_nice highest_nice (prio_to_nice t.static_prio +ℤ step))
          rq,
    )

-- `task_prio(p)`; MAX_USER_RT_PRIO is 100.
unfoldable pub task_prio : Task → ℤ
task_prio p = if is_short p.policy then pos p.short_prio else sub_ℕ p.prio 100

unfoldable pub task_nice : Task → ℤ
task_nice p = prio_to_nice p.static_prio
