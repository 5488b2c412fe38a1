-- ===== src/Sched/Waiting.antt =====
-- `__wake_up_common`, `__wake_up` and `complete`, on the list of a wait queue.
use operation_systems.Common.{ℕ, ◌+◌, Bool, true, false, ◌&&◌, List, [], ◌∷◌, if◌then◌else◌}
use operation_systems.Common.Int.{ℤ, pos, ◌-ℤ◌, ◌==ℤ◌}
use operation_systems.Sched.Task.{TaskState, running, interruptible, uninterruptible, stopped}
use operation_systems.Sched.Queue.{Rq}
use operation_systems.Sched.Wake.{try_to_wake_up}

-- `wait_queue_t`, with WQ_FLAG_EXCLUSIVE of its flags.
pub record Waiter : Type 0 where
  pub task : ℕ
  pub exclusive : Bool

-- `mode` says which states are to be woken; TASK_RUNNING is 0 and matches none.
abbrev pub in_mode : (TaskState → Bool) → TaskState → Bool
in_mode mode running = false
in_mode mode interruptible = mode interruptible
in_mode mode uninterruptible = mode uninterruptible
in_mode mode stopped = mode stopped

module _ (hz jiffies : ℕ) (mode : TaskState → Bool) where
  -- The loop over the list, with `nr_exclusive` of this moment.
  unfoldable pub wake_up_common : List Waiter → ℤ → Rq → Rq
  wake_up_common [] nr_exclusive rq = rq
  wake_up_common (w ∷ ws) nr_exclusive rq =
      let tried : Bool × Rq = try_to_wake_up hz jiffies w.task rq in
      let counts = tried.0 && w.exclusive in
      let left = nr_exclusive -ℤ pos 1 in
      let asleep = wake_up_common ws nr_exclusive rq in
      let further = wake_up_common ws (if counts then left else nr_exclusive) tried.1 in
      if in_mode mode (rq.task w.task).state
      then (if counts && left ==ℤ pos 0 then tried.1 else further)
      else asleep

-- TASK_UNINTERRUPTIBLE | TASK_INTERRUPTIBLE
abbrev pub sleeping : TaskState → Bool
sleeping interruptible = true
sleeping uninterruptible = true
sleeping _ = false

-- `complete(x)`: `x->done` and the run queue.
unfoldable pub complete : ℕ → ℕ → List Waiter → ℕ × Rq → ℕ × Rq
complete hz jiffies ws (done, rq) = (done + 1, wake_up_common hz jiffies sleeping ws (pos 1) rq)
