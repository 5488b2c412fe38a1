-- ===== src/Sched/Pick.antt =====
-- One round of `schedule`, up to the switch of the stacks.
use operation_systems.Common.{
  ℕ, ◌+◌, Bool, false, Option, some, none, List, [], ◌∷◌, ltb, leb, ◌==◌, if◌then◌else◌,
}
use operation_systems.Sched.Task.{
  TaskState, running, interruptible, uninterruptible, stopped, max_rt_prio, max_prio,
}
use operation_systems.Sched.Queue.{Rq, PrioArray, put_task}
use operation_systems.Sched.Wake.{deactivate_task}

-- `list_entry(queue->next, …)`: of an empty queue there is none.
abbrev pub first : List ℕ → Option ℕ
first [] = none
first (p ∷ ps) = some p

-- `p->array` of a task that is deactivated; through NULL there is nothing to dequeue from.
abbrev pub leave : ℕ → Rq → Option ℕ → Option Rq
leave p rq none = none
leave p rq (some i) = some (deactivate_task p i rq)

-- The `switch` on the state of the task that gives the processor up.
unfoldable pub park : Bool → Rq → TaskState → Option Rq
park signal_pending rq running = some rq
park signal_pending rq interruptible =
    if signal_pending
    then some (put_task rq.curr (record (rq.task rq.curr) { state = running }) rq)
    else leave rq.curr rq (rq.task rq.curr).array
park signal_pending rq uninterruptible = leave rq.curr rq (rq.task rq.curr).array
park signal_pending rq stopped = leave rq.curr rq (rq.task rq.curr).array

-- `find_first_bit` gives the first bit that is set, or MAX_PRIO.
module _ (find_first_bit : (ℕ → Bool) → ℕ) where
  -- The queue that `schedule` takes the next task from.
  abbrev pub next_queue : PrioArray → PrioArray → List ℕ
  next_queue array short_pr =
      let idx = find_first_bit array.bitmap in
      let idx_short = find_first_bit short_pr.bitmap in
      if leb max_rt_prio idx
      then (if ltb idx_short max_prio then short_pr.queue idx_short else array.queue idx)
      else array.queue idx

  -- An empty active array changes places with the expired one.
  abbrev pub switch_arrays : Rq → Rq
  switch_arrays rq =
      if (rq.arrays rq.active).nr_active == 0
      then record rq { active = rq.expired; expired = rq.active; expired_timestamp = 0 }
      else rq

  unfoldable pub pick_next : Rq → Option (ℕ × Rq)
  pick_next rq =
      let rq' = switch_arrays rq in
      if rq.nr_running == 0
      then some (rq.idle, record rq { expired_timestamp = 0 })
      else elim (first (next_queue (rq'.arrays rq'.active) (rq'.arrays rq'.short_pr))) [
        | none ↦ none
        | some p ↦ some (p, rq')
      ]

  abbrev pub switch_to : ℕ → ℕ → Rq → Rq
  switch_to prev next rq =
      let rq' = put_task prev (record (rq.task prev) { need_resched = false }) rq in
      if prev == next then rq' else record rq' { nr_switches = rq.nr_switches + 1; curr = next }

  -- `none` is an access through a pointer to nothing.
  unfoldable pub schedule : ℕ → Bool → Rq → Option Rq
  schedule jiffies signal_pending rq =
      let prev = rq.curr in
      let rq' = put_task prev (record (rq.task prev) { sleep_timestamp = jiffies }) rq in
      elim (park signal_pending rq' (rq'.task prev).state) [
        | none ↦ none
        | some parked ↦ elim (pick_next parked) [
          | none ↦ none
          | some (next, picked) ↦ some (switch_to prev next picked)
        ]
      ]
