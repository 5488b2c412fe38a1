-- ===== src/Sched/Task.antt =====
-- The scheduling fields of `task_struct`, and the arithmetic on priorities of sched.c.
use operation_systems.Common.{
  ℕ, ◌+◌, ◌-◌, ◌*◌, ◌/◌, Bool, true, false, ◌&&◌, not, Option, ltb, leb, if◌then◌else◌,
}
use operation_systems.Common.Int.{ℤ, sub_ℕ}

-- SCHED_OTHER, SCHED_FIFO, SCHED_RR and SCHED_SHORT, the policies that a task can have.
pub data Policy : Type 0 where
  other fifo rr short : Policy

abbrev pub is_short : Policy → Bool
is_short short = true
is_short _ = false

-- TASK_RUNNING, TASK_INTERRUPTIBLE, TASK_UNINTERRUPTIBLE, and the other states together.
pub data TaskState : Type 0 where
  running interruptible uninterruptible stopped : TaskState

abbrev pub max_rt_prio : ℕ
max_rt_prio = 100

abbrev pub max_prio : ℕ
max_prio = 140

-- `array` is the number of the priority array that the task stands in; `none` is NULL.
pub record Task : Type 0 where
  pub state : TaskState
  pub policy : Policy
  pub prio : ℕ
  pub static_prio : ℕ
  pub rt_priority : ℕ
  pub sleep_avg : ℕ
  pub sleep_timestamp : ℕ
  pub time_slice : ℕ
  pub first_time_slice : Bool
  pub need_resched : Bool
  pub array : Option ℕ
  pub requested_time : ℕ
  pub time_left : ℕ
  pub short_prio : ℕ
  pub uid : ℕ
  pub euid : ℕ

-- `rt_task(p)`
abbrev pub rt_task : Task → Bool
rt_task p = not (is_short p.policy) && ltb p.prio max_rt_prio

-- The index of the queue that a task is put in.
abbrev pub queue_index : Task → ℕ
queue_index p = if is_short p.policy then p.short_prio else p.prio

-- `TASK_NICE(p)`, of a static priority.
abbrev pub prio_to_nice : ℕ → ℤ
prio_to_nice prio = sub_ℕ prio 120

-- The timer frequency HZ is the build's.
module _ (hz : ℕ) where
  abbrev pub min_timeslice : ℕ
  min_timeslice = 10 * hz / 1000

  abbrev pub max_timeslice : ℕ
  max_timeslice = 300 * hz / 1000

  abbrev pub max_sleep_avg : ℕ
  max_sleep_avg = 2 * hz

  -- `TASK_TIMESLICE(p)`
  unfoldable pub task_timeslice : Task → ℕ
  task_timeslice p =
      min_timeslice + (max_timeslice - min_timeslice) * (max_prio - 1 - p.static_prio) / 39

  -- The first term of `bonus` in `effective_prio`; the bonus is this less 5.
  abbrev pub sleep_bonus : ℕ → ℕ
  sleep_bonus sleep_avg = 40 * 25 * sleep_avg / max_sleep_avg / 100

  -- `effective_prio`. A static priority is at least 100, so the difference does not stop at 0.
  unfoldable pub effective_prio : Task → ℕ
  effective_prio p =
      let prio : ℕ = p.static_prio + 5 - sleep_bonus p.sleep_avg in
      if is_short p.policy
      then p.short_prio
      else if ltb prio max_rt_prio
      then max_rt_prio
      else if ltb (max_prio - 1) prio
      then max_prio - 1
      else prio

-- `TASK_INTERACTIVE(p)`: `DELTA(p)` is the nice value times 10 / 40, rounded towards 0, plus 2.
unfoldable pub task_interactive : Task → Bool
task_interactive p =
    if leb 120 p.static_prio
    then leb (p.prio + ((p.static_prio - 120) * 10 / 40 + 2)) p.static_prio
    else leb (p.prio + 2) (p.static_prio + (120 - p.static_prio) * 10 / 40)
