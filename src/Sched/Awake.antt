-- ===== src/Sched/Awake.antt =====
-- Waking the tasks of a wait queue.
use operation_systems.Common.{
  ℕ, ◌≡◌, ◌⊎◌, inl, inr, ◌∙◌, ap, refl, Bool, false, ◌&&◌, ◌||◌, Option, none, some, List, [], ◌∷◌,
  if◌then◌else◌, if-all, arith, ◌==◌, ==_iff,
}
use operation_systems.Common.Int.{ℤ, pos, negsuc, ◌-ℤ◌, ◌==ℤ◌, ◌≤ℤ◌}
use operation_systems.Sched.Task.{Task, TaskState, running}
use operation_systems.Sched.Queue.{Rq, enqueue_task, resched_task}
use operation_systems.Sched.Wake.{
  try_to_wake_up, wake_up_in, wake_sleeper, activate_task, reward_sleep, preempts,
  is_uninterruptible,
}
use operation_systems.Sched.Invariant.{IsValid}
use operation_systems.Sched.Woken.{try_to_wake_up-IsValid}
use operation_systems.Sched.Waiting.{Waiter, in_mode, wake_up_common}

-- The run queue that `wake_sleeper` activates the task in.
abbrev counted_down : ℕ → ℕ → ℕ → Rq → Rq
counted_down hz jiffies p rq = record rq {
  nr_uninterruptible =
      if is_uninterruptible (rq.task p).state
      then rq.nr_uninterruptible -ℤ pos 1
      else rq.nr_uninterruptible;
}

module _ (hz jiffies p q : ℕ) where
  -- The states, but for the one of the task that is woken.
  state-activate_task :
      (rq : Rq) → ((activate_task hz jiffies p rq).task q).state ≡ (rq.task q).state
  unfolding activate_task enqueue_task reward_sleep
  state-activate_task rq = ground arith

  state-resched_task : (c : ℕ) (rq : Rq) → ((resched_task c rq).task q).state ≡ (rq.task q).state
  unfolding resched_task
  state-resched_task c rq =
      if-all (λ (t : Task). t.state ≡ (rq.task q).state) (c == q) _ _
        (λ e. ap (λ n. (rq.task n).state) ((==_iff c q).0 e)) (λ e. refl)

  state-wake_sleeper : (rq : Rq) → ((wake_sleeper hz jiffies p rq).task q).state ≡ (rq.task q).state
  unfolding wake_sleeper
  state-wake_sleeper rq =
      let rq' : Rq = activate_task hz jiffies p (counted_down hz jiffies p rq) in
      let same : (rq'.task q).state ≡ (rq.task q).state =
        state-activate_task (counted_down hz jiffies p rq) in
      if-all (λ (x : Rq). (x.task q).state ≡ (rq.task q).state)
        (preempts (rq'.task p) (rq'.task rq'.curr)) _ _
        (λ e. state-resched_task rq'.curr rq' ∙ same) (λ e. same)

  state-wake_up_in :
      (rq : Rq) (a : Option ℕ)
      → (((wake_up_in hz jiffies p rq a).1).task q).state
        ≡ (if p == q then running else (rq.task q).state)
  state-wake_up_in rq none = ground (arith, state-wake_sleeper rq)
  state-wake_up_in rq (some i) = ground arith

  pub state-try_to_wake_up :
      (rq : Rq)
      → (((try_to_wake_up hz jiffies p rq).1).task q).state
        ≡ (if p == q then running else (rq.task q).state)
  unfolding try_to_wake_up
  state-try_to_wake_up rq = state-wake_up_in rq (rq.task p).array

idle-wake_sleeper : (hz jiffies p : ℕ) (rq : Rq) → (wake_sleeper hz jiffies p rq).idle ≡ rq.idle
unfolding wake_sleeper resched_task activate_task enqueue_task
idle-wake_sleeper hz jiffies p rq =
    if-all (λ (x : Rq). x.idle ≡ rq.idle) _ _ _ (λ e. refl) (λ e. refl)

idle-wake_up_in :
    (hz jiffies p : ℕ) (rq : Rq) (a : Option ℕ) → (wake_up_in hz jiffies p rq a).1.idle ≡ rq.idle
idle-wake_up_in hz jiffies p rq none = idle-wake_sleeper hz jiffies p rq
idle-wake_up_in hz jiffies p rq (some i) = refl

idle-try_to_wake_up :
    (hz jiffies p : ℕ) (rq : Rq) → (try_to_wake_up hz jiffies p rq).1.idle ≡ rq.idle
unfolding try_to_wake_up
idle-try_to_wake_up hz jiffies p rq = idle-wake_up_in hz jiffies p rq (rq.task p).array

-- No task has got a new state but TASK_RUNNING.
abbrev pub OnlyWakes : Rq → Rq → Type 0
OnlyWakes rq rq' =
    (q : ℕ) → ((rq'.task q).state ≡ running) ⊎ ((rq'.task q).state ≡ (rq.task q).state)

-- Some of the waiters are in a state that is to be woken.
abbrev pub waits : (TaskState → Bool) → Rq → List Waiter → Bool
waits mode rq [] = false
waits mode rq (w ∷ ws) = in_mode mode (rq.task w.task).state || waits mode rq ws

-- What a wakeup is to leave: a valid run queue, where tasks have only been woken, and, if the number of
-- exclusive waiters is not limited, all of those that wait.
abbrev Woken : (TaskState → Bool) → List Waiter → ℤ → Rq → Rq → Type 0
Woken mode ws nr_exclusive rq rq' =
    IsValid rq' × OnlyWakes rq rq' × (nr_exclusive ≤ℤ pos 0 → waits mode rq' ws ≡ false)

OnlyWakes-trans : (a b c : Rq) → OnlyWakes a b → OnlyWakes b c → OnlyWakes a c
OnlyWakes-trans a b c f g q = elim (g q) [
  | inl e ↦ inl e
  | inr e ↦ elim (f q) [ inl e' ↦ inl (e ∙ e') | inr e' ↦ inr (e ∙ e') ]
]

-- The idle task is among the waiters.
abbrev pub idle_waits : ℕ → List Waiter → Bool
idle_waits idle [] = false
idle_waits idle (w ∷ ws) = w.task == idle || idle_waits idle ws

-- A task that is not to be woken is not to be woken afterwards.
stays_out :
    (mode : TaskState → Bool) (a b : Rq) (q : ℕ)
    → OnlyWakes a b
    → in_mode mode (a.task q).state ≡ false
    → in_mode mode (b.task q).state ≡ false
stays_out mode a b q f out = elim (f q) [ inl e ↦ rw e | inr e ↦ ap (in_mode mode) e ∙ out ]

is_awake : (mode : TaskState → Bool) (s : TaskState) → s ≡ running → in_mode mode s ≡ false
is_awake mode s e = ap (in_mode mode) e

minus_one-le : (n : ℤ) → n ≤ℤ pos 0 → ((n -ℤ pos 1) ≤ℤ pos 0) × (((n -ℤ pos 1) ==ℤ pos 0) ≡ false)
unfolding ◌-ℤ◌
minus_one-le (pos n) h = (ground arith, ground arith)
minus_one-le (negsuc n) h = (ground arith, ground arith)

OnlyWakes-try_to_wake_up :
    (hz jiffies p : ℕ) (rq : Rq) → OnlyWakes rq (try_to_wake_up hz jiffies p rq).1
OnlyWakes-try_to_wake_up hz jiffies p rq q = ground (arith, state-try_to_wake_up hz jiffies p q rq)

wake_up_common-Woken :
    (hz jiffies : ℕ) (mode : TaskState → Bool) (ws : List Waiter) (nr_exclusive : ℤ) (rq : Rq)
    → IsValid rq
    → idle_waits rq.idle ws ≡ false
    → Woken mode ws nr_exclusive rq (wake_up_common hz jiffies mode ws nr_exclusive rq)
unfolding wake_up_common
wake_up_common-Woken hz jiffies mode [] nr_exclusive rq v not_idle = (v, (λ q. inr refl), λ h. refl)
wake_up_common-Woken hz jiffies mode (w ∷ ws) nr_exclusive rq v not_idle =
    let counts : Bool = (try_to_wake_up hz jiffies w.task rq).0 && w.exclusive in
    let tried : Rq = (try_to_wake_up hz jiffies w.task rq).1 in
    let left : ℤ = nr_exclusive -ℤ pos 1 in
    let now : ℤ = if counts then left else nr_exclusive in
    let further : Rq = wake_up_common hz jiffies mode ws now tried in
    let asleep : Rq = wake_up_common hz jiffies mode ws nr_exclusive rq in
    let v' : IsValid tried =
      try_to_wake_up-IsValid hz jiffies w.task rq v (ground (arith, not_idle)) in
    let others : idle_waits rq.idle ws ≡ false = ground (arith, not_idle) in
    let others' : idle_waits tried.idle ws ≡ false =
      ap (λ n. idle_waits n ws) (idle-try_to_wake_up hz jiffies w.task rq) ∙ others in
    let one : OnlyWakes rq tried = OnlyWakes-try_to_wake_up hz jiffies w.task rq in
    let awake : in_mode mode (tried.task w.task).state ≡ false =
      is_awake mode (tried.task w.task).state
        (ground (arith, state-try_to_wake_up hz jiffies w.task w.task rq)) in
    if-all (Woken mode (w ∷ ws) nr_exclusive rq) (in_mode mode (rq.task w.task).state)
      (if counts && left ==ℤ pos 0 then tried else further) asleep
      (λ e.
        if-all (Woken mode (w ∷ ws) nr_exclusive rq) (counts && left ==ℤ pos 0) tried further
          (λ f. (v', one, λ h. absurd (ground (arith, f, (minus_one-le nr_exclusive h).1))))
          (λ f.
            let (ok, only, all) = wake_up_common-Woken hz jiffies mode ws now tried v' others' in
            (
              ok,
              OnlyWakes-trans rq tried further one only,
              λ h.
                  let none_left : waits mode further ws ≡ false = all (
                    if-all (λ (n : ℤ). n ≤ℤ pos 0) counts left nr_exclusive
                      (λ g. (minus_one-le nr_exclusive h).0) (λ g. h)) in
                  rw (stays_out mode tried further w.task only awake) none_left,
            )))
      (λ e.
        let (ok, only, all) = wake_up_common-Woken hz jiffies mode ws nr_exclusive rq v others in
        (ok, only, λ h. rw (stays_out mode rq asleep w.task only e) (all h)))

-- A wakeup with `nr_exclusive` 0 or less, on a queue where the idle task does not wait, keeps the run queue valid, gives no task a new state but
-- TASK_RUNNING, and leaves no task on the queue in a state that is to be woken.
pub wake_up_common-wakes_all :
    (hz jiffies : ℕ) (mode : TaskState → Bool) (ws : List Waiter) (nr_exclusive : ℤ) (rq : Rq)
    → IsValid rq
    → idle_waits rq.idle ws ≡ false
    → nr_exclusive ≤ℤ pos 0
    → let rq' = wake_up_common hz jiffies mode ws nr_exclusive rq in
      IsValid rq' × OnlyWakes rq rq' × (waits mode rq' ws ≡ false)
wake_up_common-wakes_all hz jiffies mode ws nr_exclusive rq v not_idle unlimited =
    let (ok, only, all) = wake_up_common-Woken hz jiffies mode ws nr_exclusive rq v not_idle in
    (ok, only, all unlimited)
