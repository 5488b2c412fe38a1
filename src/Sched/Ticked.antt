-- ===== src/Sched/Ticked.antt =====
-- The timer tick keeps the run queue valid.
use operation_systems.Common.{
  ℕ, ◌-◌, ◌<◌, ◌≡◌, refl, inl, inr, Bool, true, false, some, ◌||◌, ◌&&◌, not, Option-cases, arith,
  ◌==◌, if◌then◌else◌,
}
use operation_systems.Sched.Task.{
  Task, queue_index, is_short, effective_prio, task_interactive, rt_task,
}
use operation_systems.Sched.Queue.{Rq, put_task, dequeue_task, enqueue_task}
use operation_systems.Sched.Tick.{
  scheduler_tick, tick_rr, tick_short, tick_other, requeue, refill, lowered, demote, stands_in,
  decrement, expired_starving, is_rr,
}
use operation_systems.Sched.Invariant.{
  IsTask, IsValid, IsValidBut, dequeue_task-IsValidBut, put_task-IsValidBut, enqueue_task-IsValid,
  put_task-IsValid,
}
use operation_systems.Sched.Preserved.{if-IsValid, replace-IsValid, put_back-IsValid}
use operation_systems.Sched.Priority.{effective_prio-lt}

lowered-IsTask :
    (hz jiffies : ℕ) {b : Bool} (t : Task) → IsTask b t → IsTask b (lowered hz jiffies t)
lowered-IsTask hz jiffies t h = ground arith

module _ (hz jiffies : ℕ) (p : ℕ) (rq : Rq) (v : IsValid rq) where
  tick_rr-IsValid :
      (rq.task p).array ≡ some rq.active
      → is_short (rq.task p).policy ≡ false
      → IsValid (tick_rr hz jiffies p rq)
  unfolding tick_rr
  tick_rr-IsValid at ordinary =
      let t : Task = record (rq.task p) { time_slice = decrement (rq.task p).time_slice } in
      if-IsValid (t.time_slice == 0)
        (enqueue_task p rq.active (dequeue_task p rq.active (put_task p (refill hz jiffies t) rq)))
        (put_task p t rq)
        (λ e.
          put_back-IsValid p rq.active rq.active (put_task p (refill hz jiffies t) rq)
            (put_task-IsValid p (refill hz jiffies t) rq v (ground (arith, v.bounds p)) refl refl
              refl)
            (ground (arith, at)) (ground (arith, ordinary, v.active_apart)))
        (λ e. put_task-IsValid p t rq v (ground (arith, v.bounds p)) refl refl refl)

  tick_short-IsValid :
      (rq.task p).array ≡ some rq.short_pr
      → is_short (rq.task p).policy ≡ true
      → IsValid (tick_short hz jiffies p rq)
  unfolding tick_short
  tick_short-IsValid at short =
      let t : Task = record (rq.task p) { time_left = decrement (rq.task p).time_left } in
      let ok : IsValid (put_task p t rq) =
        put_task-IsValid p t rq v (ground (arith, v.bounds p)) refl refl refl in
      let fine : IsTask (p == rq.idle) t = ground (arith, v.bounds p) in
      if-IsValid (t.time_left == 0)
        (enqueue_task p rq.active
          (put_task p (demote hz jiffies t) (dequeue_task p rq.short_pr (put_task p t rq))))
        (put_task p t rq)
        (λ e.
          replace-IsValid p rq.short_pr rq.active (demote hz jiffies t) (put_task p t rq) ok
            (ground (arith, at))
            (ground (
              arith,
              lowered-IsTask hz jiffies t fine,
              effective_prio-lt hz (lowered-IsTask hz jiffies t fine),
            ))
            (ground (arith, effective_prio-lt hz (lowered-IsTask hz jiffies t fine)))
            (ground (arith, v.active_apart)))
        (λ e. ok)

requeue-IsValid :
    (hz jiffies p : ℕ) (rq : Rq)
    → IsValidBut p rq
    → is_short (rq.task p).policy ≡ false
    → queue_index (rq.task p) < 140
    → IsValid (requeue hz jiffies p rq)
unfolding requeue
requeue-IsValid hz jiffies p rq out ordinary small =
    let stamped : Rq = record rq {
      expired_timestamp = if rq.expired_timestamp == 0 then jiffies else rq.expired_timestamp;
    } in
    if-IsValid (not (task_interactive (rq.task p)) || expired_starving hz jiffies rq)
      (enqueue_task p rq.expired stamped) (enqueue_task p rq.active rq)
      (λ e.
        enqueue_task-IsValid p rq.expired stamped out (ground (arith, out.expired_apart, ordinary))
          small)
      (λ e.
        enqueue_task-IsValid p rq.active rq out (ground (arith, out.active_apart, ordinary)) small)

module _ (hz jiffies : ℕ) (p : ℕ) (rq : Rq) (v : IsValid rq) where
  tick_other-IsValid :
      (rq.task p).array ≡ some rq.active
      → is_short (rq.task p).policy ≡ false
      → IsValid (tick_other hz jiffies p rq)
  unfolding tick_other dequeue_task
  tick_other-IsValid at ordinary =
      let t : Task = record (rq.task p) {
        sleep_avg = (rq.task p).sleep_avg - 1;
        time_slice = decrement (rq.task p).time_slice;
      } in
      let t' : Task = refill hz jiffies (record t { prio = effective_prio hz t }) in
      let ok : IsValid (put_task p t rq) =
        put_task-IsValid p t rq v (ground (arith, v.bounds p)) refl refl refl in
      let fine : IsTask (p == rq.idle) t = ground (arith, v.bounds p) in
      let gone : Rq = dequeue_task p rq.active (put_task p t rq) in
      if-IsValid (t.time_slice == 0) (requeue hz jiffies p (put_task p t' gone)) (put_task p t rq)
        (λ e.
          requeue-IsValid hz jiffies p (put_task p t' gone)
            (put_task-IsValidBut p t' gone
              (dequeue_task-IsValidBut p rq.active (put_task p t rq) ok (ground (arith, at)))
              (ground (arith, fine, effective_prio-lt hz fine)))
            (ground (arith, ordinary)) (ground (arith, ordinary, effective_prio-lt hz fine)))
        (λ e. ok)

  -- Where the current task stands, once the first test has let it through.
  stands_active :
      (not (stands_in (rq.task p).array rq.active) && not (stands_in (rq.task p).array rq.short_pr))
        ≡ false
      → is_short (rq.task p).policy ≡ false
      → (rq.task p).array ≡ some rq.active
  stands_active let_in side = elim (Option-cases (rq.task p).array) [
    | inl nowhere ↦ ground (arith, let_in, nowhere)
    | inr (i, e) ↦ ground (arith, let_in, e, v.sided p i e, side)
  ]

  stands_short :
      (not (stands_in (rq.task p).array rq.active) && not (stands_in (rq.task p).array rq.short_pr))
        ≡ false
      → is_short (rq.task p).policy ≡ true
      → (rq.task p).array ≡ some rq.short_pr
  stands_short let_in side = elim (Option-cases (rq.task p).array) [
    | inl nowhere ↦ ground (arith, let_in, nowhere)
    | inr (i, e) ↦ ground (arith, let_in, e, v.sided p i e, side)
  ]

realtime_ordinary : (t : Task) → rt_task t ≡ true → is_short t.policy ≡ false
realtime_ordinary t rt = ground arith

-- `scheduler_tick` keeps the run queue valid, whatever the current task is and does.
pub scheduler_tick-IsValid :
    (hz jiffies : ℕ) (rq : Rq) → IsValid rq → IsValid (scheduler_tick hz jiffies rq)
unfolding scheduler_tick
scheduler_tick-IsValid hz jiffies rq v =
    let p = rq.curr in
    let t : Task = rq.task p in
    let late : Rq = put_task p (record t { need_resched = true }) rq in
    let ordinary : Rq =
      if is_short t.policy then tick_short hz jiffies p rq else tick_other hz jiffies p rq in
    let realtime : Rq = if is_rr t.policy then tick_rr hz jiffies p rq else rq in
    let working : Rq = if rt_task t then realtime else ordinary in
    let gone : Bool = not (stands_in t.array rq.active) && not (stands_in t.array rq.short_pr) in
    if-IsValid (p == rq.idle) rq (if gone then late else working) (λ _. v)
      (λ _.
        if-IsValid gone late working
          (λ _.
            put_task-IsValid p (record t { need_resched = true }) rq v (ground (arith, v.bounds p))
              refl refl refl)
          (λ let_in.
            if-IsValid (rt_task t) realtime ordinary
              (λ rt.
                if-IsValid (is_rr t.policy) (tick_rr hz jiffies p rq) rq
                  (λ _.
                    tick_rr-IsValid hz jiffies p rq v
                      (stands_active hz jiffies p rq v let_in (realtime_ordinary t rt))
                      (realtime_ordinary t rt))
                  (λ _. v))
              (λ _.
                if-IsValid (is_short t.policy) (tick_short hz jiffies p rq)
                  (tick_other hz jiffies p rq)
                  (λ short.
                    tick_short-IsValid hz jiffies p rq v
                      (stands_short hz jiffies p rq v let_in short) short)
                  (λ plain.
                    tick_other-IsValid hz jiffies p rq v
                      (stands_active hz jiffies p rq v let_in plain) plain))))
