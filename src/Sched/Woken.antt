-- ===== src/Sched/Woken.antt =====
-- Waking a task keeps the run queue valid, and leaves the task runnable.
use operation_systems.Common.{ℕ, ◌≡◌, refl, Option, some, none, false, ◌==◌, arith, if◌then◌else◌}
use operation_systems.Common.Int.{pos, ◌-ℤ◌}
use operation_systems.Sched.Task.{running}
use operation_systems.Sched.Queue.{Rq, resched_task}
use operation_systems.Sched.Wake.{
  wake_up_in, activate_task, wake_sleeper, set_running, try_to_wake_up, preempts,
  is_uninterruptible,
}
use operation_systems.Sched.Invariant.{
  IsValid, IsValid-IsValidBut, not_idle-lt, put_task-IsValid, resched_task-IsValid,
}
use operation_systems.Sched.Preserved.{activate_task-IsValid, if-IsValid}

module _ (hz jiffies p : ℕ) (rq : Rq) (v : IsValid rq) (not_idle : (p == rq.idle) ≡ false) where
  counted_down : Rq
  counted_down = record rq {
    nr_uninterruptible =
        if is_uninterruptible (rq.task p).state
        then rq.nr_uninterruptible -ℤ pos 1
        else rq.nr_uninterruptible;
  }

  wake_sleeper-IsValid : (rq.task p).array ≡ none → IsValid (wake_sleeper hz jiffies p rq)
  unfolding wake_sleeper counted_down
  wake_sleeper-IsValid out =
      let rq' : Rq = activate_task hz jiffies p counted_down in
      let ok : IsValid rq' =
        activate_task-IsValid hz jiffies p counted_down (IsValid-IsValidBut p rq v out)
          (not_idle-lt p rq v not_idle) in
      if-IsValid (preempts (rq'.task p) (rq'.task rq'.curr)) (resched_task rq'.curr rq') rq'
        (λ e. resched_task-IsValid rq'.curr rq' ok) (λ e. ok)

set_running-IsValid :
    (hz jiffies p : ℕ) (rq : Rq) → IsValid rq → IsValid (set_running hz jiffies p rq)
set_running-IsValid hz jiffies p rq v =
    put_task-IsValid p (record (rq.task p) { state = running }) rq v (ground (arith, v.bounds p))
      refl refl refl

wake_up_in-IsValid :
    (hz jiffies p : ℕ) (rq : Rq) (a : Option ℕ)
    → IsValid rq
    → (p == rq.idle) ≡ false
    → (rq.task p).array ≡ a
    → IsValid (wake_up_in hz jiffies p rq a).1
wake_up_in-IsValid hz jiffies p rq none v awake at =
    set_running-IsValid hz jiffies p (wake_sleeper hz jiffies p rq)
      (wake_sleeper-IsValid hz jiffies p rq v awake at)
wake_up_in-IsValid hz jiffies p rq (some i) v awake at = set_running-IsValid hz jiffies p rq v

-- `try_to_wake_up` of any task but the idle one keeps the run queue valid, whether it sleeps or not.
pub try_to_wake_up-IsValid :
    (hz jiffies p : ℕ) (rq : Rq)
    → IsValid rq
    → (p == rq.idle) ≡ false
    → IsValid (try_to_wake_up hz jiffies p rq).1
unfolding try_to_wake_up
try_to_wake_up-IsValid hz jiffies p rq v not_idle =
    wake_up_in-IsValid hz jiffies p rq (rq.task p).array v not_idle refl
