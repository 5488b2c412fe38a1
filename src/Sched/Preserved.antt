-- ===== src/Sched/Preserved.antt =====
-- Every operation of the scheduler keeps the run queue valid.
use operation_systems.Common.{
  ℕ, ◌≡◌, ◌<◌, refl, inl, inr, Bool, true, false, Bool-cases, Option, some, none, ◌||◌, ◌&&◌, not,
  arith, ltb, ◌==◌, if◌then◌else◌,
}
use operation_systems.Common.Int.{ℤ, ltb_ℤ, ◌==ℤ◌}
use operation_systems.Sched.Task.{Task, prio_to_nice, is_short, queue_index}
use operation_systems.Sched.Queue.{Rq, put_task, dequeue_task, enqueue_task, resched_task}
use operation_systems.Sched.Wake.{slept, reward_sleep, activate_task, deactivate_task}
use operation_systems.Sched.Nice.{
  lowest_nice, highest_nice, set_user_nice, renice, renice_queued, renice_other, nice_to_prio,
}
use operation_systems.Sched.Invariant.{
  IsTask, IsValid, IsValidBut, dequeue_task-IsValidBut, put_task-IsValidBut, enqueue_task-IsValid,
  IsValid-IsValidBut, IsValidBut-IsValid, put_task-IsValid, queued-lt, resched_task-IsValid,
}
use operation_systems.Sched.Priority.{effective_prio-lt}

slept_IsTask : {b : Bool} (t : Task) (s : ℕ) → IsTask b t → IsTask b (record t { sleep_avg = s })
slept_IsTask t s h = record {
  prio_in = h.prio_in;
  static_low = h.static_low;
  static_high = h.static_high;
  short_in = h.short_in;
}

module _ (hz jiffies : ℕ) where
  reward_sleep-IsTask : {b : Bool} (t : Task) → IsTask b t → IsTask b (reward_sleep hz jiffies t)
  unfolding reward_sleep
  reward_sleep-IsTask t h =
      ground (arith, effective_prio-lt hz (slept_IsTask t (slept hz jiffies t) h))

  reward_sleep-lt :
      {b : Bool} (t : Task)
      → IsTask b t
      → queue_index t < 140
      → queue_index (reward_sleep hz jiffies t) < 140
  unfolding reward_sleep
  reward_sleep-lt t h small =
      ground (arith, effective_prio-lt hz (slept_IsTask t (slept hz jiffies t) h), small)

  policy-reward_sleep : (t : Task) → (reward_sleep hz jiffies t).policy ≡ t.policy
  unfolding reward_sleep
  policy-reward_sleep t = ground arith

  -- `activate_task` makes the run queue valid, if it is valid but for the task, which stands in no
  -- array.
  pub activate_task-IsValid :
      (p : ℕ) (rq : Rq)
      → IsValidBut p rq
      → queue_index (rq.task p) < 140
      → IsValid (activate_task hz jiffies p rq)
  unfolding activate_task
  activate_task-IsValid p rq v small =
      enqueue_task-IsValid p _ (put_task p (reward_sleep hz jiffies (rq.task p)) rq)
        (put_task-IsValidBut p (reward_sleep hz jiffies (rq.task p)) rq v
          (reward_sleep-IsTask (rq.task p) (v.bounds p)))
        (ground (arith, v.active_apart, policy-reward_sleep (rq.task p)))
        (ground (arith, reward_sleep-lt (rq.task p) (v.bounds p) small))

-- `deactivate_task` keeps the run queue valid, for a task that stands in an array.
pub deactivate_task-IsValid :
    (p i : ℕ) (rq : Rq) → IsValid rq → (rq.task p).array ≡ some i → IsValid (deactivate_task p i rq)
unfolding deactivate_task dequeue_task
deactivate_task-IsValid p i rq v at =
    IsValidBut-IsValid p (put_task p (record (rq.task p) { array = none }) (dequeue_task p i rq))
      (put_task-IsValidBut p (record (rq.task p) { array = none }) (dequeue_task p i rq)
        (dequeue_task-IsValidBut p i rq v at) (ground (arith, v.bounds p)))
      (ground arith)

-- Both branches of a test.
pub if-IsValid :
    (b : Bool) (x y : Rq)
    → (b ≡ true → IsValid x)
    → (b ≡ false → IsValid y)
    → IsValid (if b then x else y)
if-IsValid true x y f g = f refl
if-IsValid false x y f g = g refl

-- Taking a task out, changing it and putting it in again.
pub replace-IsValid :
    (p i j : ℕ) (t : Task) (rq : Rq)
    → IsValid rq
    → (rq.task p).array ≡ some i
    → IsTask (p == rq.idle) t
    → queue_index t < 140
    → (j == rq.short_pr) ≡ is_short t.policy
    → IsValid (enqueue_task p j (put_task p t (dequeue_task p i rq)))
unfolding dequeue_task
replace-IsValid p i j t rq v at h small side =
    enqueue_task-IsValid p j (put_task p t (dequeue_task p i rq))
      (put_task-IsValidBut p t (dequeue_task p i rq) (dequeue_task-IsValidBut p i rq v at) h)
      (ground (arith, side)) (ground (arith, small))

pub put_back-IsValid :
    (p i j : ℕ) (rq : Rq)
    → IsValid rq
    → (rq.task p).array ≡ some i
    → (j == rq.short_pr) ≡ is_short (rq.task p).policy
    → IsValid (enqueue_task p j (dequeue_task p i rq))
unfolding dequeue_task
put_back-IsValid p i j rq v at side =
    enqueue_task-IsValid p j (dequeue_task p i rq) (dequeue_task-IsValidBut p i rq v at) side
      (queued-lt p i rq v at)

renice-IsTask :
    (nice : ℤ) {b : Bool} (t : Task)
    → IsTask b t
    → (ltb_ℤ nice lowest_nice || ltb_ℤ highest_nice nice) ≡ false
    → IsTask b (renice nice t)
renice-IsTask nice t h range = ground arith

renice-lt :
    (nice : ℤ) (t : Task)
    → is_short t.policy ≡ false
    → (ltb_ℤ nice lowest_nice || ltb_ℤ highest_nice nice) ≡ false
    → queue_index (renice nice t) < 140
renice-lt nice t ordinary range = ground arith

renice_queued-IsValid :
    (p i : ℕ) (nice : ℤ) (rq : Rq)
    → IsValid rq
    → (rq.task p).array ≡ some i
    → is_short (rq.task p).policy ≡ false
    → (ltb_ℤ nice lowest_nice || ltb_ℤ highest_nice nice) ≡ false
    → IsValid (renice_queued p nice i rq)
unfolding renice_queued dequeue_task
renice_queued-IsValid p i nice rq v at ordinary range =
    let rq' : Rq = enqueue_task p i (put_task p (renice nice (rq.task p)) (dequeue_task p i rq)) in
    let ok : IsValid rq' =
      replace-IsValid p i i (renice nice (rq.task p)) rq v at
        (renice-IsTask nice (rq.task p) (v.bounds p) range)
        (renice-lt nice (rq.task p) ordinary range) (v.sided p i at) in
    if-IsValid (ltb (nice_to_prio nice) (rq'.task p).static_prio || p == rq'.curr)
      (resched_task rq'.curr rq') rq' (λ e. resched_task-IsValid rq'.curr rq' ok) (λ e. ok)

renice_other-IsValid :
    (p : ℕ) (nice : ℤ) (rq : Rq) (a : Option ℕ)
    → IsValid rq
    → (rq.task p).array ≡ a
    → is_short (rq.task p).policy ≡ false
    → (ltb_ℤ nice lowest_nice || ltb_ℤ highest_nice nice) ≡ false
    → IsValid (renice_other p nice rq a)
renice_other-IsValid p nice rq none v at ordinary range =
    let t : Task = renice nice (rq.task p) in
    IsValidBut-IsValid p (put_task p t rq)
      (put_task-IsValidBut p t rq (IsValid-IsValidBut p rq v at)
        (renice-IsTask nice (rq.task p) (v.bounds p) range))
      (ground (arith, at))
renice_other-IsValid p nice rq (some i) v at ordinary range =
    renice_queued-IsValid p i nice rq v at ordinary range

-- `set_user_nice` keeps the run queue valid, for every task and nice value.
pub set_user_nice-IsValid :
    (p : ℕ) (nice : ℤ) (rq : Rq) → IsValid rq → IsValid (set_user_nice p nice rq)
unfolding set_user_nice
set_user_nice-IsValid p nice rq v =
    let t : Task = rq.task p in
    elim (Bool-cases (is_short t.policy)) [
      | inl e ↦ rw e v
      | inr ordinary ↦
          rw ordinary
            (elim (Bool-cases (
              prio_to_nice t.static_prio ==ℤ nice
              || ltb_ℤ nice lowest_nice
              || ltb_ℤ highest_nice nice)) [
                | inl e ↦ rw e v
                | inr differs ↦ rw differs (
                    let range : (ltb_ℤ nice lowest_nice || ltb_ℤ highest_nice nice) ≡ false =
                      ground arith in
                    if-IsValid (not false && ltb t.prio 100)
                      (put_task p (record t { static_prio = nice_to_prio nice }) rq)
                      (renice_other p nice rq t.array)
                      (λ e.
                        put_task-IsValid p (record t { static_prio = nice_to_prio nice }) rq v
                          (ground (arith, v.bounds p)) refl refl refl)
                      (λ e. renice_other-IsValid p nice rq t.array v refl ordinary range))
              ])
    ]
