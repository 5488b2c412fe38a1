-- ===== src/Sched/Queue.antt =====
-- `prio_array`, `runqueue`, and the functions that link tasks into them.
use operation_systems.Common.{
  ℕ, ◌+◌, ◌-◌, Bool, true, false, some, List, [], ◌∷◌, ◌++◌, ◌==◌, if◌then◌else◌,
}
use operation_systems.Common.Int.{ℤ}
use operation_systems.Sched.Task.{Task, queue_index}

abbrev pub update {ℓ} : {A : Type ℓ} → (ℕ → A) → ℕ → A → ℕ → A
update f k v j = if k == j then v else f j

-- A queue lists task numbers, first to last.
pub record PrioArray : Type 0 where
  pub nr_active : ℕ
  pub bitmap : ℕ → Bool
  pub queue : ℕ → List ℕ

-- The run queue, and every task by its number. The three arrays are numbered, as the pointers
-- `active` and `expired` are exchanged.
pub record Rq : Type 0 where
  pub nr_running : ℕ
  pub nr_switches : ℕ
  pub expired_timestamp : ℕ
  pub nr_uninterruptible : ℤ
  pub curr : ℕ
  pub idle : ℕ
  pub active : ℕ
  pub expired : ℕ
  pub short_pr : ℕ
  pub arrays : ℕ → PrioArray
  pub task : ℕ → Task

abbrev pub is_empty : List ℕ → Bool
is_empty [] = true
is_empty (p ∷ ps) = false

-- `list_del`: a task is linked into one list, wherever that is.
abbrev pub unlink : ℕ → List ℕ → List ℕ
unlink p [] = []
unlink p (q ∷ qs) = if p == q then unlink p qs else q ∷ unlink p qs

-- What `dequeue_task` does to the array: the bit of the task's index goes with its last task.
abbrev pub remove_from : ℕ → ℕ → PrioArray → PrioArray
remove_from p k a =
    let rest = unlink p (a.queue k) in
    record {
      nr_active = a.nr_active - 1;
      bitmap = if is_empty rest then update a.bitmap k false else a.bitmap;
      queue = λ j. unlink p (a.queue j);
    }

abbrev pub append_to : ℕ → ℕ → PrioArray → PrioArray
append_to p k a = record {
  nr_active = a.nr_active + 1;
  bitmap = update a.bitmap k true;
  queue = update a.queue k (a.queue k ++ p ∷ []);
}

abbrev pub put_array : ℕ → PrioArray → Rq → Rq
put_array i a rq = record rq { arrays = update rq.arrays i a }

abbrev pub put_task : ℕ → Task → Rq → Rq
put_task p t rq = record rq { task = update rq.task p t }

-- `dequeue_task(p, array)`
unfoldable pub dequeue_task : ℕ → ℕ → Rq → Rq
dequeue_task p i rq = put_array i (remove_from p (queue_index (rq.task p)) (rq.arrays i)) rq

-- `enqueue_task(p, array)`
unfoldable pub enqueue_task : ℕ → ℕ → Rq → Rq
enqueue_task p i rq =
    put_task p (record (rq.task p) { array = some i })
      (put_array i (append_to p (queue_index (rq.task p)) (rq.arrays i)) rq)

-- `resched_task` without CONFIG_SMP
unfoldable pub resched_task : ℕ → Rq → Rq
resched_task p rq = put_task p (record (rq.task p) { need_resched = true }) rq
