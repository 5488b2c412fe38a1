-- ===== src/Sched/Tests.antt =====
-- The theorems of the scheduler, each at a small run queue.
use operation_systems.Common.{
  ℕ, List, [], ◌∷◌, ◌+◌, ◌≤◌, ◌≡◌, refl, inr, true, false, Option, some, none, arith,
}
use operation_systems.Common.Int.{ℤ, pos, negsuc}
use operation_systems.Sched.Task.{is_short, interruptible, running}
use operation_systems.Sched.Queue.{Rq, put_task, enqueue_task, resched_task}
use operation_systems.Sched.Yield.{sched_yield}
use operation_systems.Sched.Yielded.{Yielded, sched_yield-Yielded}
use operation_systems.Sched.Waiting.{Waiter, sleeping, wake_up_common}
use operation_systems.Sched.Awake.{OnlyWakes, waits, wake_up_common-wakes_all}
use operation_systems.Sched.Wake.{activate_task, reward_sleep, try_to_wake_up, wake_sleeper}
use operation_systems.Sched.Tick.{scheduler_tick}
use operation_systems.Sched.Pick.{switch_arrays, pick_next}
use operation_systems.Sched.Policies.{SchedParam, setscheduler}
use operation_systems.Sched.Setprio.{Ident, setpriority}
use operation_systems.Sched.Reniced.{setpriority-IsValid}
use operation_systems.Sched.Queries.{short_place_in_queue}
use operation_systems.Sched.Consistent.{total}
use operation_systems.Sched.Invariant.{IsValid, put_task-IsValid}
use operation_systems.Sched.Ticked.{scheduler_tick-IsValid}
use operation_systems.Sched.Picked.{IsCandidate, rank, pick_next-best}
use operation_systems.Sched.Permitted.{
  setscheduler-atomic, setscheduler-short_task, setscheduler-IsValid,
}
use operation_systems.Sched.Placed.{ahead, short_place_in_queue-eq}
use operation_systems.Sched.Sample.{
  with_3, with_3-IsValid, with_2, with_5, loaded, loaded-IsValid, first_set, first_set_from,
  first_set-IsFirstBit,
}

short_param : SchedParam
short_param = record { sched_priority = pos 0; requested_time = pos 100; sched_short_prio = pos 3 }

find_same : ℤ → Option ℕ
find_same (pos n) = some n
find_same (negsuc n) = none

find_2 : find_same (pos 2) ≡ some 2
unfolding find_same
find_2 = refl

short_2 : is_short (loaded.task 2).policy ≡ true
unfolding loaded with_5 with_2 with_3 activate_task reward_sleep enqueue_task
short_2 = refl

scheduler_tick-IsValid_example : IsValid (scheduler_tick 100 50 loaded)
scheduler_tick-IsValid_example = scheduler_tick-IsValid 100 50 loaded loaded-IsValid

setscheduler-IsValid_example :
    IsValid (setscheduler 100 50 find_same true false (pos 3) (pos 5) (some short_param) loaded).1
setscheduler-IsValid_example =
    setscheduler-IsValid 100 50 find_same true false (pos 3) (pos 5) (some short_param) loaded
      loaded-IsValid

pick_next-best_example :
    (p : ℕ) × (pick_next first_set loaded ≡ some (p, switch_arrays first_set loaded))
    × IsCandidate (switch_arrays first_set loaded) p
    × ((q : ℕ)
        → IsCandidate (switch_arrays first_set loaded) q
        → rank ((switch_arrays first_set loaded).task p)
          ≤ rank ((switch_arrays first_set loaded).task q))
unfolding loaded with_5 with_2 with_3 activate_task reward_sleep enqueue_task
pick_next-best_example =
    pick_next-best first_set loaded 2 first_set-IsFirstBit loaded-IsValid (λ e. cc) (inr refl)

-- The realtime task runs first.
pick_next-loaded : pick_next first_set loaded ≡ some (1, loaded)
unfolding pick_next first_set_from loaded with_5 with_2 with_3 activate_task reward_sleep
    enqueue_task
pick_next-loaded = refl

setscheduler-atomic_example :
    (setscheduler 100 50 find_same true false (pos 2) (pos 0) (some short_param) loaded).1 ≡ loaded
setscheduler-atomic_example =
    setscheduler-atomic 100 50 find_same true false (pos 2) (pos 0) (some short_param) loaded
      (setscheduler-short_task 100 50 find_same true false (pos 2) (pos 0) (some short_param) loaded
        2 find_2 short_2).0

short_place_in_queue-eq_example :
    short_place_in_queue find_same (pos 5) loaded
    ≡ pos (
        total (loaded.arrays loaded.short_pr).queue (loaded.task 5).short_prio
        + ahead 5 ((loaded.arrays loaded.short_pr).queue (loaded.task 5).short_prio))
unfolding find_same loaded with_5 with_2 with_3 activate_task reward_sleep enqueue_task
short_place_in_queue-eq_example =
    short_place_in_queue-eq find_same 5 loaded 5 loaded-IsValid refl refl refl (λ e. cc)

abbrev one_group : ℕ → Ident
one_group p = record { pid = pos p; pgrp = pos 3 }

setpriority-IsValid_example :
    IsValid (setpriority one_group true (2 ∷ 3 ∷ []) (pos 1) (pos 3) (pos 5) loaded).1
setpriority-IsValid_example =
    setpriority-IsValid one_group true (2 ∷ 3 ∷ []) (pos 1) (pos 3) (pos 5) loaded loaded-IsValid

sched_yield-Yielded_example :
    (rq' : Rq) × (sched_yield first_set with_3 ≡ some rq') × Yielded 0 with_3 rq'
unfolding with_3 activate_task reward_sleep enqueue_task
sched_yield-Yielded_example =
    sched_yield-Yielded first_set with_3 0 first_set-IsFirstBit with_3-IsValid refl

-- Tasks 4 and 6 wait, the second of them alone; task 4 sleeps.
abbrev two_wait : List Waiter
two_wait = record { task = 4; exclusive = false } ∷ record { task = 6; exclusive = true } ∷ []

abbrev asleep_4 : Rq
asleep_4 = put_task 4 (record (with_3.task 4) { state = interruptible }) with_3

asleep_4-IsValid : IsValid asleep_4
asleep_4-IsValid =
    put_task-IsValid 4 (record (with_3.task 4) { state = interruptible }) with_3 with_3-IsValid
      (ground (arith, with_3-IsValid.bounds 4)) refl refl refl

wakes_4 : ((wake_up_common 100 0 sleeping two_wait (pos 0) asleep_4).task 4).state ≡ running
unfolding with_3 activate_task reward_sleep enqueue_task wake_up_common try_to_wake_up wake_sleeper
    resched_task
wakes_4 = refl

wake_up_common-wakes_all_example :
    let rq' = wake_up_common 100 0 sleeping two_wait (pos 0) asleep_4 in
    IsValid rq' × OnlyWakes asleep_4 rq' × (waits sleeping rq' two_wait ≡ false)
unfolding with_3 activate_task enqueue_task
wake_up_common-wakes_all_example =
    wake_up_common-wakes_all 100 0 sleeping two_wait (pos 0) asleep_4 asleep_4-IsValid refl
      (omega arith)
