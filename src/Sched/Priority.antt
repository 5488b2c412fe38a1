-- ===== src/Sched/Priority.antt =====
-- The ranges of the dynamic priority and of the time slice, and the conversion of nice values.
use operation_systems.Common.{ℕ, zero, suc, ◌+◌, ◌-◌, ◌*◌, ◌/◌, ◌≤◌, ◌<◌, ◌≡◌, Bool, false, arith}
use operation_systems.Common.Int.{ℤ, ◌≤ℤ◌}
use operation_systems.Sched.Task.{
  Task, is_short, effective_prio, sleep_bonus, max_sleep_avg, task_timeslice, min_timeslice,
  max_timeslice, prio_to_nice,
}
use operation_systems.Sched.Nice.{nice_to_prio, lowest_nice, highest_nice}
use native.Mathlib.Nat.{div-le_of_le-mul, div-zero, le-div_iff_mul-le, div-mul-le_self}
use operation_systems.Sched.Invariant.{IsTask}

-- The effective priority is always the index of a queue.
pub effective_prio-lt : (hz : ℕ) {b : Bool} {t : Task} → IsTask b t → effective_prio hz t < 140
unfolding effective_prio
effective_prio-lt hz h = ground arith

sleep_bonus-le : (hz s : ℕ) → s ≤ max_sleep_avg hz → sleep_bonus hz s ≤ 10
sleep_bonus-le hz s h =
    omega (arith, div-le_of_le-mul (2 * hz) {m = 1000 * s} {n = 1000} (omega arith))

div_mono : (k : ℕ) {m n : ℕ} → m ≤ n → m / k ≤ n / k
div_mono zero {m} {n} h = rw (div-zero m, div-zero n) (omega arith)
div_mono (suc k) {m} {n} h =
    (le-div_iff_mul-le {k = suc k} {x = m / suc k} {y = n} (omega arith)).1
      (omega (arith, div-mul-le_self m (suc k), h))

sleep_bonus_mono : (hz : ℕ) {s more : ℕ} → s ≤ more → sleep_bonus hz s ≤ sleep_bonus hz more
sleep_bonus_mono hz {s} {more} h =
    div_mono 100 (div_mono (2 * hz) {m = 1000 * s} {n = 1000 * more} (omega arith))

-- The effective priority of a task that is not short, with priorities in range and at most the
-- greatest average of sleep, is within 5 levels of its static priority and from 100 to 139.
pub effective_prio-near :
    (hz : ℕ) {b : Bool} {t : Task}
    → IsTask b t
    → is_short t.policy ≡ false
    → t.sleep_avg ≤ max_sleep_avg hz
    → (100 ≤ effective_prio hz t)
      × (effective_prio hz t ≤ 139)
      × (t.static_prio ≤ effective_prio hz t + 5)
      × (effective_prio hz t ≤ t.static_prio + 5)
unfolding effective_prio
effective_prio-near hz {b} {t} h ordinary rested =
    ground (arith, sleep_bonus-le hz t.sleep_avg rested)

-- More sleep never makes the effective priority worse (its number larger).
pub effective_prio-antitone :
    (hz : ℕ) (t : Task) (more : ℕ)
    → t.sleep_avg ≤ more
    → effective_prio hz (record t { sleep_avg = more }) ≤ effective_prio hz t
unfolding effective_prio
effective_prio-antitone hz t more h = ground (arith, sleep_bonus_mono hz h)

scaled : (a d : ℕ) → d ≤ 39 → a * d ≤ 39 * a
scaled a d h = grind arith

-- The time slice of a task with priorities in range lies between the two limits.
pub task_timeslice-range :
    (hz : ℕ) {b : Bool} {t : Task}
    → IsTask b t
    → (min_timeslice hz ≤ task_timeslice hz t) × (task_timeslice hz t ≤ max_timeslice hz)
unfolding task_timeslice
task_timeslice-range hz {b} {t} h =
    let span : ℕ = max_timeslice hz - min_timeslice hz in
    omega (
      arith,
      div-le_of_le-mul 39 {m = span * (139 - t.static_prio)} {n = span}
          (scaled span (139 - t.static_prio) (omega arith)),
    )

-- A nice value from -20 to 19 becomes a static priority from 100 to 139, which becomes it again.
pub task_nice-nice_to_prio :
    (nice : ℤ)
    → lowest_nice ≤ℤ nice
    → nice ≤ℤ highest_nice
    → (prio_to_nice (nice_to_prio nice) ≡ nice)
      × (100 ≤ nice_to_prio nice)
      × (nice_to_prio nice < 140)
task_nice-nice_to_prio nice lo hi = ground arith
