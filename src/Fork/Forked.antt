-- ===== src/Fork/Forked.antt =====
-- `do_fork` makes a process that is accounted for, or leaves everything but `last_pid` as it was.
use operation_systems.Common.{
  ℕ, ◌+◌, ◌≤◌, ◌<◌, ◌≡◌, ◌⊎◌, Bool, false, not, ◌&&◌, Option, some, ◌∷◌, map, leb,
}
use operation_systems.Common.Int.{ℤ, pos, ◌==ℤ◌}
use operation_systems.Sched.Invariant.{IsValid}
use operation_systems.Fork.Pids.{Cursor}
use operation_systems.Fork.Passed.{taken}
use operation_systems.Fork.Making.{Answers, Procs}
use operation_systems.Fork.Shared.{Shared}

-- More processes than the user may have.
abbrev pub over_limit : Answers → Procs → Bool
over_limit a s = leb a.rlim_cur s.processes && (not a.cap_sys_admin && not a.cap_sys_resource)

-- An error, with nothing changed but the numbers that were tried.
abbrev pub IsRefused : Procs → ℤ × Procs → Type 0
IsRefused s (r, s') = ((r ==ℤ pos 0) ≡ false) × ((c : Cursor) × (s' ≡ record s { cursor = c }))

-- A task with a number that no task had, in a valid run queue, and counted everywhere.
abbrev pub IsMade : Answers → Procs → ℤ × Procs → Type 0
IsMade a s (r, s') =
    (p : ℕ) × (n : ℕ) × (a.new_struct ≡ some p)
    × (r ≡ pos n)
    × (300 ≤ n)
    × (taken n (map s.ids s.linked) ≡ false)
    × ((s'.ids p).pid ≡ n)
    × IsValid s'.rq
    × (s'.linked ≡ p ∷ s.linked)
    × (s'.nr_threads ≡ s.nr_threads + 1)
    × (s'.processes ≡ s.processes + 1)
    × (over_limit a s ≡ false)
    × (s.nr_threads < a.max_threads)

-- What a call is to return.
abbrev pub Forked : Answers → Procs → Option (ℤ × Procs) → Type 0
Forked a s answer = (r : ℤ × Procs) × (answer ≡ some r) × (IsRefused s r ⊎ IsMade a s r)
