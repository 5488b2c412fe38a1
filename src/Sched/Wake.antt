-- ===== src/Sched/Wake.antt =====
-- Becoming runnable and ceasing to be: `activate_task`, `deactivate_task`, `try_to_wake_up`,
-- `wake_up_forked_process` and `sched_exit`.
use operation_systems.Common.{
  ℕ, ◌+◌, ◌-◌, ◌*◌, ◌/◌, ◌%◌, ◌^◌, Bool, true, false, ◌&&◌, ◌||◌, not, Option, some, none, ltb,
  ◌==◌, if◌then◌else◌,
}
use operation_systems.Common.Int.{pos, ◌+ℤ◌, ◌-ℤ◌}
use operation_systems.Sched.Task.{
  Policy, other, is_short, TaskState, running, uninterruptible, Task, rt_task, effective_prio,
  max_sleep_avg, max_timeslice,
}
use operation_systems.Sched.Queue.{Rq, put_task, dequeue_task, enqueue_task, resched_task}

-- `unsigned long` arithmetic of the processor.
abbrev pub word : ℕ
word = 2 ^ 32

abbrev pub is_uninterruptible : TaskState → Bool
is_uninterruptible uninterruptible = true
is_uninterruptible _ = false

abbrev pub is_other : Policy → Bool
is_other other = true
is_other _ = false

-- `hz` is HZ, and `jiffies` the clock at the call.
module _ (hz : ℕ) (jiffies : ℕ) where
  abbrev pub sleep_time : Task → ℕ
  sleep_time p = (jiffies + word - p.sleep_timestamp) % word

  -- The sleep average with the sleep that ends now, at most MAX_SLEEP_AVG.
  abbrev pub slept : Task → ℕ
  slept p =
      let sum : ℕ = (p.sleep_avg + sleep_time p) % word in
      if ltb (max_sleep_avg hz) sum then max_sleep_avg hz else sum

  -- The bonus for sleeping that `activate_task` gives to all but realtime and short tasks.
  unfoldable pub reward_sleep : Task → Task
  reward_sleep p =
      if not (rt_task p) && not (sleep_time p == 0) && not (is_short p.policy)
      then record p {
        sleep_avg = slept p;
        prio = effective_prio hz (record p { sleep_avg = slept p });
      }
      else p

  unfoldable pub activate_task : ℕ → Rq → Rq
  activate_task p rq =
      let i : ℕ = if is_short (rq.task p).policy then rq.short_pr else rq.active in
      let rq' = enqueue_task p i (put_task p (reward_sleep (rq.task p)) rq) in
      record rq' { nr_running = rq'.nr_running + 1 }

-- `deactivate_task(p, rq)` for a task that stands in the array `i`.
unfoldable pub deactivate_task : ℕ → ℕ → Rq → Rq
deactivate_task p i rq =
    let rq' = dequeue_task p i rq in
    record rq' {
      nr_running = rq.nr_running - 1;
      nr_uninterruptible =
          if is_uninterruptible (rq.task p).state
          then rq.nr_uninterruptible +ℤ pos 1
          else rq.nr_uninterruptible;
      task = (put_task p (record (rq.task p) { array = none }) rq').task;
    }

-- Whether a woken task takes the processor from the current one.
abbrev pub preempts : Task → Task → Bool
preempts p curr =
    (is_short p.policy && is_other curr.policy)
    || (is_short p.policy && is_short curr.policy && ltb p.short_prio curr.short_prio)
    || (rt_task p && is_short curr.policy)
    || ltb p.prio curr.prio

module _ (hz : ℕ) (jiffies : ℕ) where
  -- The part of `try_to_wake_up` that is run for a task in no array.
  unfoldable pub wake_sleeper : ℕ → Rq → Rq
  wake_sleeper p rq =
      let rq' = activate_task hz jiffies p (record rq {
        nr_uninterruptible =
            if is_uninterruptible (rq.task p).state
            then rq.nr_uninterruptible -ℤ pos 1
            else rq.nr_uninterruptible;
      }) in
      if preempts (rq'.task p) (rq'.task rq'.curr) then resched_task rq'.curr rq' else rq'

  abbrev pub set_running : ℕ → Rq → Rq
  set_running p rq = put_task p (record (rq.task p) { state = running }) rq

  -- By `p->array`.
  abbrev pub wake_up_in : ℕ → Rq → Option ℕ → Bool × Rq
  wake_up_in p rq none = (true, set_running p (wake_sleeper p rq))
  wake_up_in p rq (some i) = (false, set_running p rq)

  -- `try_to_wake_up(p, sync)`: on one processor `sync` moves no task.
  unfoldable pub try_to_wake_up : ℕ → Rq → Bool × Rq
  try_to_wake_up p rq = wake_up_in p rq (rq.task p).array

  -- PARENT_PENALTY is 100 and CHILD_PENALTY 95. The parent is the current task.
  unfoldable pub wake_up_forked_process : ℕ → Rq → Rq
  wake_up_forked_process p rq =
      let parent : Task = rq.task rq.curr in
      let rq₁ = set_running p rq in
      let rq₂ =
        put_task rq.curr (record (rq₁.task rq.curr) { sleep_avg = parent.sleep_avg * 100 / 100 })
          rq₁ in
      let child : Task = record (rq₂.task p) { sleep_avg = (rq₂.task p).sleep_avg * 95 / 100 } in
      if rt_task (rq.task p)
      then activate_task hz jiffies p rq₁
      else activate_task hz jiffies p
          (put_task p (record child { prio = effective_prio hz child }) rq₂)

-- `sched_exit(p)`: the current task takes the slice of its child back, but for a short child, and
-- a share of its low sleep average. EXIT_WEIGHT is 3.
unfoldable pub sched_exit : ℕ → Task → Task → Task
sched_exit hz p current =
    let slice : ℕ = current.time_slice + p.time_slice in
    record current {
      time_slice =
          if p.first_time_slice && not (is_short p.policy)
          then (if ltb (max_timeslice hz) slice then max_timeslice hz else slice)
          else current.time_slice;
      sleep_avg =
          if ltb p.sleep_avg current.sleep_avg
          then (current.sleep_avg * 3 + p.sleep_avg) / 4
          else current.sleep_avg;
    }
