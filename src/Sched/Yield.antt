-- ===== src/Sched/Yield.antt =====
-- `sys_sched_yield`, up to its call of `schedule`.
use operation_systems.Common.{
  ℕ, Bool, true, false, not, ◌||◌, Option, none, some, List, [], ◌∷◌, ◌++◌, leb, ◌==◌,
  if◌then◌else◌,
}
use operation_systems.Sched.Task.{Task, rt_task, is_short, max_prio}
use operation_systems.Sched.Queue.{update, PrioArray, Rq, is_empty, unlink, put_array, put_task}

-- `list_add(&p->run_list, queue.next)`
abbrev pub after_first : ℕ → List ℕ → List ℕ
after_first p [] = p ∷ []
after_first p (q ∷ qs) = q ∷ p ∷ qs

-- `list_del` from an array, and the list of one queue with the task put in again.
abbrev pub unlink_from : ℕ → PrioArray → PrioArray
unlink_from p a = record a { queue = λ j. unlink p (a.queue j) }

abbrev pub put_queue : ℕ → List ℕ → PrioArray → PrioArray
put_queue k ps a = record a { queue = update a.queue k ps }

abbrev pub set_bit : ℕ → PrioArray → PrioArray
set_bit k a = record a { bitmap = update a.bitmap k true }

module _ (find_first_bit : (ℕ → Bool) → ℕ) where
  -- The queue that a lone task is put in: the first one in use behind its own, if there is one.
  abbrev pub next_prio : ℕ → (ℕ → Bool) → ℕ
  next_prio prio bitmap =
      let i : ℕ = find_first_bit (update bitmap prio false) in
      if i == max_prio || leb i prio then prio else i

  abbrev pub yield_alone : ℕ → ℕ → PrioArray → Rq → Rq
  yield_alone p i rest rq =
      let t : Task = rq.task p in
      let k : ℕ = next_prio t.prio rest.bitmap in
      put_task p (record t { prio = k })
        (put_array i
          (set_bit k (
            put_queue k (after_first p (rest.queue k))
              (record rest { bitmap = update rest.bitmap t.prio false })))
          rq)

  -- For a current task that stands in the array `i`.
  unfoldable pub yield_in : ℕ → Rq → Rq
  yield_in i rq =
      let p = rq.curr in
      let t : Task = rq.task p in
      let rest : PrioArray = unlink_from p (rq.arrays i) in
      if rt_task t
      then put_array i (put_queue t.prio (rest.queue t.prio ++ p ∷ []) rest) rq
      else if is_short t.policy
      then put_array i (put_queue t.short_prio (rest.queue t.short_prio ++ p ∷ []) rest) rq
      else if not (is_empty (rest.queue t.prio))
      then put_array i (put_queue t.prio (after_first p (rest.queue t.prio)) rest) rq
      else yield_alone p i rest rq

  abbrev pub yield_at : Option ℕ → Rq → Option Rq
  yield_at none rq = none
  yield_at (some i) rq = some (yield_in i rq)

  -- A current task in no array has no queue to be put in.
  unfoldable pub sched_yield : Rq → Option Rq
  sched_yield rq = yield_at (rq.task rq.curr).array rq
