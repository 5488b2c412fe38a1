-- ===== src/Sched/Sample.antt =====
-- A valid run queue with a realtime, two short and an ordinary task, built by activations, and a
-- search for the first set bit: the data of the tests.
use operation_systems.Common.{
  ℕ, zero, suc, ◌+◌, ◌≤◌, ◌<◌, ◌≡◌, refl, ap, inl, inr, Bool, true, false, Bool-cases, none, [],
  arith, ◌==◌, ==_iff, if◌then◌else◌,
}
use operation_systems.Common.Int.{pos}
use operation_systems.Sched.Task.{Task, other, fifo, short, running}
use operation_systems.Sched.Queue.{Rq, PrioArray, enqueue_task}
use operation_systems.Sched.Wake.{activate_task, reward_sleep}
use operation_systems.Sched.Consistent.{total}
use operation_systems.Sched.Invariant.{IsTask, IsValid, IsValid-IsValidBut}
use operation_systems.Sched.Preserved.{activate_task-IsValid}
use operation_systems.Sched.Picked.{IsFirstBit}

abbrev pub plain_task : Task
plain_task = record {
  state = running;
  policy = other;
  prio = 120;
  static_prio = 120;
  rt_priority = 0;
  sleep_avg = 0;
  sleep_timestamp = 0;
  time_slice = 10;
  first_time_slice = false;
  need_resched = false;
  array = none;
  requested_time = 0;
  time_left = 0;
  short_prio = 0;
  uid = 0;
  euid = 0;
}

abbrev pub idle_task : Task
idle_task = record plain_task { prio = 140; need_resched = true }

abbrev pub short_task : Task
short_task = record plain_task {
  policy = short;
  short_prio = 7;
  requested_time = 100;
  time_left = 1;
}

abbrev pub fifo_task : Task
fifo_task = record plain_task { policy = fifo; prio = 50; rt_priority = 49 }

abbrev pub empty_array : PrioArray
empty_array = record { nr_active = 0; bitmap = λ j. j == 140; queue = λ j. [] }

-- Task 0 is the idle one, as `init_idle` leaves it; 1 is realtime, 2 and 5 are short, all others ordinary;
-- nobody stands in an array yet. The bit MAX_PRIO is set in every bitmap, as `sched_init` leaves it.
abbrev pub all_tasks : ℕ → Task
all_tasks p =
    if p == 0
    then idle_task
    else if p == 1
    then fifo_task
    else if p == 2
    then short_task
    else if p == 5
    then short_task
    else plain_task

pub all_tasks-IsTask : (p : ℕ) → IsTask (p == 0) (all_tasks p)
all_tasks-IsTask p = ground arith

abbrev pub empty_rq : Rq
empty_rq = record {
  nr_running = 0;
  nr_switches = 0;
  expired_timestamp = 0;
  nr_uninterruptible = pos 0;
  curr = 3;
  idle = 0;
  active = 0;
  expired = 1;
  short_pr = 2;
  arrays = λ i. empty_array;
  task = all_tasks;
}

no_array : (p : ℕ) → (all_tasks p).array ≡ none
no_array p = ground arith

pub empty_rq-IsValid : IsValid empty_rq
unfolding total
empty_rq-IsValid = record {
  linked = record {
    placed = λ p i j. ground (arith, no_array p);
    bits = λ i j s. ground arith;
    counted = λ i. refl;
    ranged = λ p i j e. ground (arith, no_array p, e);
  };
  bounds = all_tasks-IsTask;
  sided = λ p i e. cc (no_array p, e);
  active_apart = omega arith;
  expired_apart = omega arith;
}

-- Tasks 3, 2, 5 and 1 are activated in this order, at HZ = 100.
unfoldable pub with_3 : Rq
with_3 = activate_task 100 0 3 empty_rq

unfoldable pub with_2 : Rq
with_2 = activate_task 100 0 2 with_3

unfoldable pub with_5 : Rq
with_5 = activate_task 100 0 5 with_2

unfoldable pub loaded : Rq
loaded = activate_task 100 0 1 with_5

pub with_3-IsValid : IsValid with_3
unfolding with_3
with_3-IsValid =
    activate_task-IsValid 100 0 3 empty_rq (IsValid-IsValidBut 3 empty_rq empty_rq-IsValid refl)
      (omega arith)

with_2-IsValid : IsValid with_2
unfolding with_2 with_3 activate_task reward_sleep enqueue_task
with_2-IsValid =
    activate_task-IsValid 100 0 2 with_3 (IsValid-IsValidBut 2 with_3 with_3-IsValid refl)
      (omega arith)

with_5-IsValid : IsValid with_5
unfolding with_5 with_2 with_3 activate_task reward_sleep enqueue_task
with_5-IsValid =
    activate_task-IsValid 100 0 5 with_2 (IsValid-IsValidBut 5 with_2 with_2-IsValid refl)
      (omega arith)

pub loaded-IsValid : IsValid loaded
unfolding loaded with_5 with_2 with_3 activate_task reward_sleep enqueue_task
loaded-IsValid =
    activate_task-IsValid 100 0 1 with_5 (IsValid-IsValidBut 1 with_5 with_5-IsValid refl)
      (omega arith)

-- The first set bit from `i` on, within `rounds` bits.
unfoldable pub first_set_from : ℕ → ℕ → (ℕ → Bool) → ℕ
first_set_from zero i bitmap = i
first_set_from (suc rounds) i bitmap = elim (bitmap i) [
  | true ↦ i
  | false ↦ first_set_from rounds (suc i) bitmap
]

abbrev pub first_set : (ℕ → Bool) → ℕ
first_set bitmap = first_set_from 140 0 bitmap

first_set_from-bounds :
    (r i : ℕ) (b : ℕ → Bool)
    → (first_set_from r i b ≤ i + r)
      × (first_set_from r i b < i + r → b (first_set_from r i b) ≡ true)
unfolding first_set_from
first_set_from-bounds zero i b = (omega arith, λ h. absurd (omega arith))
first_set_from-bounds (suc r) i b = elim (Bool-cases (b i)) [
  | inl e ↦ (ground (arith, e), λ h. ground (arith, e))
  | inr e ↦
      let (le, at) = first_set_from-bounds r (suc i) b in
      (ground (arith, e, le), λ h. ground (arith, e, at, h))
]

first_set_from-below :
    (r i : ℕ) (b : ℕ → Bool) (j : ℕ) → i ≤ j → j < first_set_from r i b → b j ≡ false
unfolding first_set_from
first_set_from-below zero i b j lo hi = absurd (omega arith)
first_set_from-below (suc r) i b j lo hi = elim (Bool-cases (b i)) [
  | inl e ↦ ground (arith, e, hi, lo)
  | inr e ↦ elim (Bool-cases (i == j)) [
    | inl same ↦ ground (arith, e, same, ap b ((==_iff i j).0 same))
    | inr later ↦ ground (arith, e, hi, lo, later, first_set_from-below r (suc i) b j)
  ]
]

pub first_set-IsFirstBit : IsFirstBit first_set
first_set-IsFirstBit = record {
  below = λ b j h. first_set_from-below 140 0 b j (omega arith) h;
  found = λ b h. (first_set_from-bounds 140 0 b).1 h;
  bounded = λ b. (first_set_from-bounds 140 0 b).0;
}
