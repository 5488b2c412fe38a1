-- ===== src/Sched/Placed.antt =====
-- The place of a short task in the queue: how many short tasks run before it.
use operation_systems.Common.{
  ℕ, zero, suc, ◌+◌, ◌≡◌, ◌≢◌, refl, ap, true, Option, some, List, [], ◌∷◌, arith, ◌==◌,
  if◌then◌else◌, length,
}
use operation_systems.Common.Int.{ℤ, pos}
use operation_systems.Sched.Task.{is_short}
use operation_systems.Sched.Queue.{Rq}
use operation_systems.Sched.Queries.{at_task, behind, scan_queue, scan_from, short_place_in_queue}
use operation_systems.Sched.Consistent.{occurs, total}
use operation_systems.Sched.Invariant.{IsValid}

-- How many stand in front of `p` in a queue.
abbrev pub ahead : ℕ → List ℕ → ℕ
ahead p [] = 0
ahead p (q ∷ qs) = if q == p then 0 else suc (ahead p qs)

scan_queue-absent :
    (p : ℕ) (qs : List ℕ) (n : ℕ) → occurs p qs ≡ 0 → scan_queue p qs n ≡ behind (n + length qs)
unfolding scan_queue
scan_queue-absent p [] n h = ap behind (omega arith)
scan_queue-absent p (q ∷ qs) n h = ground (arith, scan_queue-absent p qs (n + 1))

scan_queue-present :
    (p : ℕ) (qs : List ℕ) (n : ℕ) → occurs p qs ≢ 0 → scan_queue p qs n ≡ at_task (n + ahead p qs)
unfolding scan_queue
scan_queue-present p [] n h = absurd (h refl)
scan_queue-present p (q ∷ qs) n h = ground (arith, scan_queue-present p qs (n + 1))

total-zero : (queue : ℕ → List ℕ) → total queue 0 ≡ 0
unfolding total
total-zero queue = refl

-- The walk over the queues from `k - r` on, at a task that stands in queue `k` alone.
scan_from-eq :
    (p k : ℕ) (queue : ℕ → List ℕ)
    → ((j : ℕ) → occurs p (queue j) ≡ (if k == j then 1 else 0))
    → (r j : ℕ) → j + r ≡ k
    → scan_from p queue (suc r) j (total queue j) ≡ total queue k + ahead p (queue k)
unfolding scan_from total
scan_from-eq p k queue once zero j fits =
    let e : j ≡ k = omega arith in
    rw (scan_queue-present p (queue j) (total queue j) (ground (arith, once j, e)), scan_from)
      (ap (λ m. total queue m + ahead p (queue m)) e)
scan_from-eq p k queue once (suc r) j fits =
    rw (scan_queue-absent p (queue j) (total queue j) (ground (arith, once j)), scan_from)
      (scan_from-eq p k queue once r (suc j) (omega arith))

-- On a valid run queue, the place of a short task in the short array that is not running is the
-- number of tasks in the queues of better priorities and in front of it in its own queue.
pub short_place_in_queue-eq :
    (find : ℤ → Option ℕ) (pid : ℕ) (rq : Rq) (p : ℕ)
    → IsValid rq
    → find (pos pid) ≡ some p
    → is_short (rq.task p).policy ≡ true
    → (rq.task p).array ≡ some rq.short_pr
    → rq.curr ≢ p
    → short_place_in_queue find (pos pid) rq
      ≡ pos (
          total (rq.arrays rq.short_pr).queue (rq.task p).short_prio
          + ahead p ((rq.arrays rq.short_pr).queue (rq.task p).short_prio))
unfolding short_place_in_queue
short_place_in_queue-eq find pid rq p v f short at waits =
    let k : ℕ = (rq.task p).short_prio in
    let queue : ℕ → List ℕ = (rq.arrays rq.short_pr).queue in
    let once : (j : ℕ) → occurs p (queue j) ≡ (if k == j then 1 else 0) =
      λ j. ground (arith, v.linked.placed p rq.short_pr j, at, short) in
    ground (arith, f, short, waits, scan_from-eq p k queue once k 0 (omega arith), total-zero queue)
