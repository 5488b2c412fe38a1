-- ===== src/Sched/Queries.antt =====
-- The two calls on short tasks: `sys_short_remaining_time` and `sys_short_place_in_queue`.
use operation_systems.Common.{
  ℕ, zero, suc, ◌+◌, ◌*◌, ◌/◌, Option, some, none, List, [], ◌∷◌, ◌==◌, if◌then◌else◌,
}
use operation_systems.Common.Int.{ℤ, pos, ltb_ℤ}
use operation_systems.Sched.Task.{is_short}
use operation_systems.Sched.Queue.{Rq}
use operation_systems.Sched.Policies.{esrch, einval}

abbrev pub remaining : ℕ → Rq → Option ℕ → ℤ
remaining hz rq none = esrch
remaining hz rq (some p) =
    if is_short (rq.task p).policy then pos ((rq.task p).time_left * 1000 / hz) else einval

unfoldable pub short_remaining_time : ℕ → (ℤ → Option ℕ) → ℤ → Rq → ℤ
short_remaining_time hz find pid rq =
    if ltb_ℤ pid (pos 0) then esrch else remaining hz rq (find pid)

-- How the walk over one queue ends: at the task, or behind the queue, with the counter there.
pub data Scan : Type 0 where
  at_task : ℕ → Scan
  behind : ℕ → Scan

unfoldable pub scan_queue : ℕ → List ℕ → ℕ → Scan
scan_queue p [] counter = behind counter
scan_queue p (q ∷ qs) counter =
    let rest = scan_queue p qs (counter + 1) in if q == p then at_task counter else rest

-- The outer loop over the queues `prio`, … of an array, `rounds` of them.
unfoldable pub scan_from : ℕ → (ℕ → List ℕ) → ℕ → ℕ → ℕ → ℕ
scan_from p queue zero prio counter = counter
scan_from p queue (suc rounds) prio counter = elim (scan_queue p (queue prio) counter) [
  | at_task n ↦ n
  | behind n ↦ scan_from p queue rounds (suc prio) n
]

abbrev pub place : Rq → Option ℕ → ℤ
place rq none = esrch
place rq (some p) =
    if is_short (rq.task p).policy
    then (if rq.curr == p
        then pos 0
        else pos (scan_from p (rq.arrays rq.short_pr).queue (suc (rq.task p).short_prio) 0 0))
    else einval

unfoldable pub short_place_in_queue : (ℤ → Option ℕ) → ℤ → Rq → ℤ
short_place_in_queue find pid rq = if ltb_ℤ pid (pos 0) then esrch else place rq (find pid)
