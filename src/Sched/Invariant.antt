-- ===== src/Sched/Invariant.antt =====
-- The invariant of the run queue, and the steps from which every operation is made: take a task
-- out, change it while it is out, put it in.
use operation_systems.Common.{
  ℕ, ◌≤◌, ◌<◌, ◌≡◌, ◌≢◌, ◌∙◌, refl, inl, inr, Bool, true, false, Bool-cases, Option, some, none,
  arith, ◌==◌, ==_iff,
}
use mathlib.Core.Path.{subst}
use operation_systems.Sched.Task.{Task, is_short, queue_index}
use operation_systems.Sched.Queue.{
  update, PrioArray, Rq, put_task, dequeue_task, enqueue_task, resched_task,
}
use operation_systems.Sched.Consistent.{
  IsConsistent, append_to-IsConsistent, remove_from-IsConsistent,
}

-- The array and the queue index at which a task stands.
abbrev pub location_in : Option ℕ → ℕ → Option (ℕ × ℕ)
location_in none k = none
location_in (some i) k = some (i, k)

abbrev pub location : Task → Option (ℕ × ℕ)
location t = location_in t.array (queue_index t)

-- The ranges of a task's priorities. Only the idle task has the priority MAX_PRIO.
pub record IsTask (is_idle : Bool) (t : Task) : Type 0 where
  pub prio_in : is_idle ≡ false → t.prio < 140
  pub static_low : 100 ≤ t.static_prio
  pub static_high : t.static_prio < 140
  pub short_in : is_short t.policy ≡ true → t.short_prio < 140

-- The arrays agree with the tasks; short tasks stand in the short array, and no others do.
pub record IsState (arrays : ℕ → PrioArray) (task : ℕ → Task) (idle active expired short_pr : ℕ)
    : Type 0 where
  pub linked : IsConsistent arrays (λ p. location (task p))
  pub bounds : (p : ℕ) → IsTask (p == idle) (task p)
  pub sided : (p i : ℕ) → (task p).array ≡ some i → (i == short_pr) ≡ is_short (task p).policy
  pub active_apart : active ≢ short_pr
  pub expired_apart : expired ≢ short_pr

abbrev pub IsValid : Rq → Type 0
IsValid rq = IsState rq.arrays rq.task rq.idle rq.active rq.expired rq.short_pr

-- The same, while the task `out` stands in no array, whatever its field says.
pub record IsStateBut (out : ℕ) (arrays : ℕ → PrioArray) (task : ℕ → Task)
    (idle active expired short_pr : ℕ) : Type 0 where
  pub linked : IsConsistent arrays (update (λ p. location (task p)) out none)
  pub bounds : (p : ℕ) → IsTask (p == idle) (task p)
  pub sided :
      (p i : ℕ) → p ≢ out → (task p).array ≡ some i → (i == short_pr) ≡ is_short (task p).policy
  pub active_apart : active ≢ short_pr
  pub expired_apart : expired ≢ short_pr

abbrev pub IsValidBut : ℕ → Rq → Type 0
IsValidBut out rq = IsStateBut out rq.arrays rq.task rq.idle rq.active rq.expired rq.short_pr

pub IsConsistent-ext :
    {arrays : ℕ → PrioArray} {place place' : ℕ → Option (ℕ × ℕ)}
    → IsConsistent arrays place
    → ((p : ℕ) → place p ≡ place' p)
    → IsConsistent arrays place'
IsConsistent-ext {place} c same = record {
  placed = λ p i j. ground (arith, c.placed p i j, same p);
  bits = c.bits;
  counted = c.counted;
  ranged = λ p i j e. c.ranged p i j (same p ∙ e);
}

pub update-IsTask :
    (f : ℕ → Task) (idle p : ℕ) (t : Task)
    → ((q : ℕ) → IsTask (q == idle) (f q))
    → IsTask (p == idle) t
    → (q : ℕ) → IsTask (q == idle) (update f p t q)
update-IsTask f idle p t all h q = elim (Bool-cases (p == q)) [
  | inl e ↦ rw e (subst (λ n. IsTask (n == idle) t) ((==_iff p q).0 e) h)
  | inr e ↦ rw e (all q)
]

pub queue_index-lt : {t : Task} → IsTask false t → queue_index t < 140
queue_index-lt h = ground arith

-- A task that stands in a queue has the index of one.
pub queued-lt :
    (p i : ℕ) (rq : Rq) → IsValid rq → (rq.task p).array ≡ some i → queue_index (rq.task p) < 140
queued-lt p i rq v at = v.linked.ranged p i (queue_index (rq.task p)) (rw at)

pub not_idle-lt :
    (p : ℕ) (rq : Rq) → IsValid rq → (p == rq.idle) ≡ false → queue_index (rq.task p) < 140
not_idle-lt p rq v e = ground (arith, v.bounds p, e)

moved : (t : Task) {b : Bool} {a : Option ℕ} → IsTask b t → IsTask b (record t { array = a })
moved t h = record {
  prio_in = h.prio_in;
  static_low = h.static_low;
  static_high = h.static_high;
  short_in = h.short_in;
}

-- Linking out, writing to the task that is out, and linking in.
pub dequeue_task-IsValidBut :
    (p i : ℕ) (rq : Rq)
    → IsValid rq
    → (rq.task p).array ≡ some i
    → IsValidBut p (dequeue_task p i rq)
unfolding dequeue_task
dequeue_task-IsValidBut p i rq v at = record {
  linked = remove_from-IsConsistent v.linked p i (queue_index (rq.task p)) (rw at);
  bounds = v.bounds;
  sided = λ q j ne e. v.sided q j e;
  active_apart = v.active_apart;
  expired_apart = v.expired_apart;
}

pub put_task-IsValidBut :
    (p : ℕ) (t : Task) (rq : Rq)
    → IsValidBut p rq
    → IsTask (p == rq.idle) t
    → IsValidBut p (put_task p t rq)
put_task-IsValidBut p t rq v h = record {
  linked = IsConsistent-ext v.linked (λ q. ground arith);
  bounds = update-IsTask rq.task rq.idle p t v.bounds h;
  sided = λ q j ne e. ground (arith, v.sided q j, ne, e);
  active_apart = v.active_apart;
  expired_apart = v.expired_apart;
}

pub enqueue_task-IsValid :
    (p i : ℕ) (rq : Rq)
    → IsValidBut p rq
    → (i == rq.short_pr) ≡ is_short (rq.task p).policy
    → queue_index (rq.task p) < 140
    → IsValid (enqueue_task p i rq)
unfolding enqueue_task
enqueue_task-IsValid p i rq v side small = record {
  linked =
      IsConsistent-ext
        (append_to-IsConsistent v.linked p i (queue_index (rq.task p)) (ground arith) small)
        (λ q. ground arith);
  bounds =
      update-IsTask rq.task rq.idle p (record (rq.task p) { array = some i }) v.bounds
        (moved (rq.task p) (v.bounds p));
  sided = λ q j e. ground (arith, v.sided q j, e, side);
  active_apart = v.active_apart;
  expired_apart = v.expired_apart;
}

-- A task in no array is out already, and one that is out and says so is nowhere.
pub IsValid-IsValidBut : (p : ℕ) (rq : Rq) → IsValid rq → (rq.task p).array ≡ none → IsValidBut p rq
IsValid-IsValidBut p rq v out = record {
  linked = IsConsistent-ext v.linked (λ q. ground (arith, out));
  bounds = v.bounds;
  sided = λ q j ne e. v.sided q j e;
  active_apart = v.active_apart;
  expired_apart = v.expired_apart;
}

pub IsValidBut-IsValid : (p : ℕ) (rq : Rq) → IsValidBut p rq → (rq.task p).array ≡ none → IsValid rq
IsValidBut-IsValid p rq v out = record {
  linked = IsConsistent-ext v.linked (λ q. ground (arith, out));
  bounds = v.bounds;
  sided = λ q j e. ground (arith, v.sided q j, e, out);
  active_apart = v.active_apart;
  expired_apart = v.expired_apart;
}

-- A write that leaves a task's place and ranges alone.
pub put_task-IsValid :
    (p : ℕ) (t : Task) (rq : Rq)
    → IsValid rq
    → IsTask (p == rq.idle) t
    → t.array ≡ (rq.task p).array
    → t.policy ≡ (rq.task p).policy
    → queue_index t ≡ queue_index (rq.task p)
    → IsValid (put_task p t rq)
put_task-IsValid p t rq v h same_array same_policy same_index = record {
  linked = IsConsistent-ext v.linked (λ q. ground (arith, same_array, same_index));
  bounds = update-IsTask rq.task rq.idle p t v.bounds h;
  sided = λ q j e. ground (arith, v.sided q j, v.sided p j, e);
  active_apart = v.active_apart;
  expired_apart = v.expired_apart;
}

pub resched_task-IsValid : (p : ℕ) (rq : Rq) → IsValid rq → IsValid (resched_task p rq)
unfolding resched_task
resched_task-IsValid p rq v =
    put_task-IsValid p (record (rq.task p) { need_resched = true }) rq v
      (ground (arith, v.bounds p)) refl refl refl
