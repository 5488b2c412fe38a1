-- ===== src/Sched/Tick.antt =====
-- `scheduler_tick`, without the counters of `kstat`.
use operation_systems.Common.{
  ℕ, ◌+◌, ◌-◌, ◌*◌, ◌/◌, ◌%◌, Bool, true, false, ◌&&◌, ◌||◌, not, Option, some, none, ltb, leb,
  ◌==◌, if◌then◌else◌,
}
use operation_systems.Sched.Task.{
  Policy, other, rr, is_short, Task, rt_task, effective_prio, task_timeslice, task_interactive,
  max_sleep_avg, max_prio,
}
use operation_systems.Sched.Queue.{Rq, put_task, dequeue_task, enqueue_task}
use operation_systems.Sched.Wake.{word}

abbrev pub is_rr : Policy → Bool
is_rr rr = true
is_rr _ = false

-- `--x` on an unsigned int
abbrev pub decrement : ℕ → ℕ
decrement x = (x + word - 1) % word

-- `p->array == i`
abbrev pub stands_in : Option ℕ → ℕ → Bool
stands_in none i = false
stands_in (some a) i = a == i

module _ (hz : ℕ) (jiffies : ℕ) where
  -- `EXPIRED_STARVING(rq)`; STARVATION_LIMIT is 2 * HZ.
  abbrev pub expired_starving : Rq → Bool
  expired_starving rq =
      not (rq.expired_timestamp == 0)
      && leb ((2 * hz * rq.nr_running + 1) % word) ((jiffies + word - rq.expired_timestamp) % word)

  -- A task whose slice is spent gets a new one.
  abbrev pub refill : Task → Task
  refill p = record p {
    first_time_slice = false;
    time_slice = task_timeslice hz p;
    need_resched = true;
  }

  unfoldable pub tick_rr : ℕ → Rq → Rq
  tick_rr p rq =
      let t : Task = record (rq.task p) { time_slice = decrement (rq.task p).time_slice } in
      if t.time_slice == 0
      then enqueue_task p rq.active (dequeue_task p rq.active (put_task p (refill t) rq))
      else put_task p t rq

  -- The task after the last tick of its time as a short one: SCHED_OTHER, 7 levels down.
  abbrev pub lowered : Task → Task
  lowered t = record t {
    policy = other;
    static_prio =
        if ltb (t.static_prio + 7) (max_prio - 1) then t.static_prio + 7 else max_prio - 1;
    sleep_avg = max_sleep_avg hz / 2;
  }

  abbrev pub demote : Task → Task
  demote t = refill (record (lowered t) { prio = effective_prio hz (lowered t) })

  unfoldable pub tick_short : ℕ → Rq → Rq
  tick_short p rq =
      let t : Task = record (rq.task p) { time_left = decrement (rq.task p).time_left } in
      if t.time_left == 0
      then enqueue_task p rq.active
          (put_task p (demote t) (dequeue_task p rq.short_pr (put_task p t rq)))
      else put_task p t rq

  -- Where a task that spent its slice goes, with the time of the first one to expire.
  unfoldable pub requeue : ℕ → Rq → Rq
  requeue p rq =
      if not (task_interactive (rq.task p)) || expired_starving rq
      then enqueue_task p rq.expired (record rq {
        expired_timestamp = if rq.expired_timestamp == 0 then jiffies else rq.expired_timestamp;
      })
      else enqueue_task p rq.active rq

  unfoldable pub tick_other : ℕ → Rq → Rq
  tick_other p rq =
      let t : Task = record (rq.task p) {
        sleep_avg = (rq.task p).sleep_avg - 1;
        time_slice = decrement (rq.task p).time_slice;
      } in
      if t.time_slice == 0
      then requeue p (
          put_task p (refill (record t { prio = effective_prio hz t }))
            (dequeue_task p rq.active (put_task p t rq)))
      else put_task p t rq

  unfoldable pub scheduler_tick : Rq → Rq
  scheduler_tick rq =
      let p = rq.curr in
      let t : Task = rq.task p in
      if p == rq.idle
      then rq
      else if not (stands_in t.array rq.active) && not (stands_in t.array rq.short_pr)
      then put_task p (record t { need_resched = true }) rq
      else if rt_task t
      then (if is_rr t.policy then tick_rr p rq else rq)
      else if is_short t.policy
      then tick_short p rq
      else tick_other p rq
