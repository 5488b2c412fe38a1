-- ===== src/Fork/Shared.antt =====
-- Sharing the slice and waking the child keep the run queue valid.
use operation_systems.Common.{
  ℕ, ◌-◌, ◌*◌, ◌/◌, ◌≡◌, ◌∙◌, ap, refl, Bool, true, false, not, ◌&&◌, Option, none, some, ◌==◌,
  if◌then◌else◌, if-all, arith,
}
use operation_systems.Sched.Task.{Task, rt_task, is_short}
use operation_systems.Sched.Queue.{Rq, put_task, enqueue_task, dequeue_task}
use operation_systems.Sched.Wake.{wake_up_forked_process, set_running}
use operation_systems.Sched.Tick.{
  scheduler_tick, tick_rr, tick_short, tick_other, requeue, stands_in, is_rr, decrement,
}
use operation_systems.Sched.Invariant.{
  IsTask, IsValid, IsValid-IsValidBut, IsValidBut-IsValid, put_task-IsValid, put_task-IsValidBut,
  not_idle-lt,
}
use operation_systems.Sched.Preserved.{if-IsValid, activate_task-IsValid}
use operation_systems.Sched.Priority.{effective_prio-lt}
use operation_systems.Sched.Ticked.{scheduler_tick-IsValid}
use operation_systems.Fork.Making.{child_of, share_slice}

-- The task `p` is as it was, and the current and the idle one are the same.
pub Frames : ℕ → Rq → Rq → Type 0
Frames p rq rq' = (rq'.task p ≡ rq.task p) × (rq'.curr ≡ rq.curr) × (rq'.idle ≡ rq.idle)

module _ (hz jiffies p : ℕ) (rq : Rq) (other : (rq.curr == p) ≡ false) where
  still : Frames p rq rq
  unfolding Frames
  still = (refl, refl, refl)

  either : (b : Bool) (x y : Rq) → Frames p rq x → Frames p rq y → Frames p rq (if b then x else y)
  either true x y f g = f
  either false x y f g = g

  put_task-Frames : (t : Task) → Frames p rq (put_task rq.curr t rq)
  unfolding Frames
  put_task-Frames t = (rw other, refl, refl)

  tick_rr-Frames : Frames p rq (tick_rr hz jiffies rq.curr rq)
  unfolding tick_rr enqueue_task dequeue_task Frames
  tick_rr-Frames =
      if-all (Frames p rq) _ _ _ (λ e. (rw other, refl, refl)) (λ e. (rw other, refl, refl))

  tick_short-Frames : Frames p rq (tick_short hz jiffies rq.curr rq)
  unfolding tick_short enqueue_task dequeue_task Frames
  tick_short-Frames =
      if-all (Frames p rq) _ _ _ (λ e. (rw other, refl, refl)) (λ e. (rw other, refl, refl))

  tick_other-Frames : Frames p rq (tick_other hz jiffies rq.curr rq)
  unfolding tick_other requeue enqueue_task dequeue_task Frames
  tick_other-Frames =
      let t : Task = record (rq.task rq.curr) {
        sleep_avg = (rq.task rq.curr).sleep_avg - 1;
        time_slice = decrement (rq.task rq.curr).time_slice;
      } in
      if-all (Frames p rq) (t.time_slice == 0) _ (put_task rq.curr t rq)
        (λ e.
          if-all (Frames p rq) _ _ _ (λ f. (rw other, refl, refl)) (λ f. (rw other, refl, refl)))
        (λ e. put_task-Frames t)

  pub scheduler_tick-Frames : Frames p rq (scheduler_tick hz jiffies rq)
  unfolding scheduler_tick
  scheduler_tick-Frames =
      let t : Task = rq.task rq.curr in
      let realtime : Rq = if is_rr t.policy then tick_rr hz jiffies rq.curr rq else rq in
      let ordinary : Rq =
        if is_short t.policy
        then tick_short hz jiffies rq.curr rq
        else tick_other hz jiffies rq.curr rq in
      let working : Rq = if rt_task t then realtime else ordinary in
      let late : Rq = put_task rq.curr (record t { need_resched = true }) rq in
      let gone : Bool = not (stands_in t.array rq.active) && not (stands_in t.array rq.short_pr) in
      either (rq.curr == rq.idle) rq (if gone then late else working) still (
        either gone late working (put_task-Frames _) (
          either (rt_task t) realtime ordinary (either (is_rr t.policy) _ _ tick_rr-Frames still)
            (either (is_short t.policy) _ _ tick_short-Frames tick_other-Frames)))

child_of-IsTask :
    (hz jiffies : ℕ) (b : Bool) (t : Task) → IsTask false t → IsTask b (child_of hz jiffies t)
child_of-IsTask hz jiffies b t h = record {
  prio_in = λ e. h.prio_in refl;
  static_low = h.static_low;
  static_high = h.static_high;
  short_in = h.short_in;
}

module _ (hz jiffies p : ℕ) (rq : Rq) (v : IsValid rq) (fresh : (rq.task p).array ≡ none)
    (other : (rq.curr == p) ≡ false) (at_work : (rq.curr == rq.idle) ≡ false) where
  with_child : Rq
  with_child = put_task p (child_of hz jiffies (rq.task rq.curr)) rq

  with_child-IsValid : IsValid with_child
  unfolding with_child
  with_child-IsValid =
      IsValidBut-IsValid p with_child
        (put_task-IsValidBut p _ rq (IsValid-IsValidBut p rq v fresh) (
          child_of-IsTask hz jiffies (p == rq.idle) (rq.task rq.curr)
            (ground (arith, v.bounds rq.curr, at_work))))
        (ground arith)

  sliced-IsValid :
      (n : ℕ) → IsValid (put_task rq.curr (record (rq.task rq.curr) { time_slice = n }) with_child)
  unfolding with_child
  sliced-IsValid n =
      put_task-IsValid rq.curr _ with_child with_child-IsValid (ground (arith, v.bounds rq.curr))
        (ground (arith, other)) (ground (arith, other)) (ground (arith, other))

-- What `share_slice` is to give to a task with a slice left.
unfoldable pub Shared : ℕ → Rq → Option Rq → Type 0
Shared p rq answer =
    (rq' : Rq) × (answer ≡ some rq')
    × IsValid rq'
    × ((rq'.task p).array ≡ none)
    × (rq'.curr ≡ rq.curr)
    × (rq'.idle ≡ rq.idle)

module _ (hz jiffies p : ℕ) (rq : Rq) (v : IsValid rq) (fresh : (rq.task p).array ≡ none)
    (other : (rq.curr == p) ≡ false) where
  pub share_slice-Shared :
      (rq.curr == rq.idle) ≡ false
      → ((rq.task rq.curr).time_slice == 0) ≡ false
      → Shared p rq (share_slice hz jiffies p rq)
  unfolding share_slice Shared with_child Frames
  share_slice-Shared at_work left =
      let t : Task = rq.task rq.curr in
      let one : Rq =
        put_task rq.curr (record t { time_slice = 1 })
          (with_child hz jiffies p rq v fresh other at_work) in
      let ok : IsValid one = sliced-IsValid hz jiffies p rq v fresh other at_work 1 in
      rw left (
        if-all (Shared p rq) (t.time_slice / 2 == 0) _ _
          (λ e. (
            scheduler_tick hz jiffies one,
            refl,
            scheduler_tick-IsValid hz jiffies one ok,
            ap (λ u. u.array) (scheduler_tick-Frames hz jiffies p one other).0
                ∙ ground (arith, other),
            (scheduler_tick-Frames hz jiffies p one other).1,
            (scheduler_tick-Frames hz jiffies p one other).2,
          ))
          (λ e. (
            _,
            refl,
            sliced-IsValid hz jiffies p rq v fresh other at_work (t.time_slice / 2),
            ground (arith, other),
            refl,
            refl,
          )))

  pub wake_up_forked_process-IsValid :
      (p == rq.idle) ≡ false → IsValid (wake_up_forked_process hz jiffies p rq)
  unfolding wake_up_forked_process
  wake_up_forked_process-IsValid not_idle =
      let rq₁ : Rq = set_running hz jiffies p rq in
      let v₁ : IsValid rq₁ =
        put_task-IsValid p _ rq v (ground (arith, v.bounds p)) refl refl refl in
      let parent : Task = rq₁.task rq.curr in
      let rq₂ : Rq =
        put_task rq.curr (record parent { sleep_avg = (rq.task rq.curr).sleep_avg * 100 / 100 })
          rq₁ in
      let v₂ : IsValid rq₂ =
        put_task-IsValid rq.curr _ rq₁ v₁ (ground (arith, v₁.bounds rq.curr)) refl refl refl in
      let child : Task = record (rq₂.task p) { sleep_avg = (rq₂.task p).sleep_avg * 95 / 100 } in
      let is_child : IsTask (p == rq.idle) child = ground (arith, v₂.bounds p) in
      if-IsValid (rt_task (rq.task p)) _ _
        (λ e.
          activate_task-IsValid hz jiffies p rq₁
            (IsValid-IsValidBut p rq₁ v₁ (ground (arith, fresh))) (not_idle-lt p rq₁ v₁ not_idle))
        (λ e.
          activate_task-IsValid hz jiffies p _
            (put_task-IsValidBut p _ rq₂
              (IsValid-IsValidBut p rq₂ v₂ (ground (arith, fresh, other)))
              (ground (arith, is_child, effective_prio-lt hz is_child)))
            (ground (arith, effective_prio-lt hz is_child, is_child)))
