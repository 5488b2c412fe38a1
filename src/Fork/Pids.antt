-- ===== src/Fork/Pids.antt =====
-- `get_pid`, which chooses the number of a new process.
use operation_systems.Common.{
  ℕ, zero, suc, ◌+◌, Bool, true, false, ◌||◌, ◌&&◌, Option, none, some, List, [], ◌∷◌, ltb, leb,
  ◌==◌, if◌then◌else◌,
}

-- The numbers of a task that a new one must not have.
pub record Ids : Type 0 where
  pub pid : ℕ
  pub pgrp : ℕ
  pub tgid : ℕ
  pub session : ℕ

-- `last_pid` and `next_safe`, which stay from call to call.
pub record Cursor : Type 0 where
  pub last_pid : ℕ
  pub next_safe : ℕ

-- PID_MAX, one more than the greatest number.
abbrev pub pid_max : ℕ
pid_max = 32768

-- `last_pid & 0xffff8000`
abbrev pub too_large : ℕ → Bool
too_large n = leb pid_max n

abbrev pub has_id : ℕ → Ids → Bool
has_id n t = t.pid == n || (t.pgrp == n || (t.tgid == n || t.session == n))

-- `if (x > last_pid && next_safe > x) next_safe = x`
abbrev pub lower_to : ℕ → ℕ → ℕ → ℕ
lower_to last_pid x next_safe = if ltb last_pid x && ltb x next_safe then x else next_safe

abbrev pub lower : ℕ → Ids → ℕ → ℕ
lower last_pid t next_safe =
    lower_to last_pid t.session
      (lower_to last_pid t.tgid (lower_to last_pid t.pgrp (lower_to last_pid t.pid next_safe)))

-- One run of `for_each_task`: whether a task with the number was met, and `next_safe` there.
unfoldable pub pass : ℕ → List Ids → ℕ → Bool × ℕ
pass last_pid [] next_safe = (false, next_safe)
pass last_pid (t ∷ tasks) next_safe =
    let rest = pass last_pid tasks (lower last_pid t next_safe) in
    if has_id last_pid t then (true, next_safe) else rest

-- The number after one that is taken.
abbrev pub advance : ℕ → ℕ → Cursor
advance last_pid next_safe =
    if leb next_safe (last_pid + 1)
    then record {
      last_pid = if too_large (last_pid + 1) then 300 else last_pid + 1;
      next_safe = pid_max;
    }
    else record { last_pid = last_pid + 1; next_safe = next_safe }

-- From the label `repeat` on, for so many rounds; `none` if they do not suffice. The number is 0 if there
-- is no free one.

unfoldable pub repeat : ℕ → ℕ → List Ids → Cursor → Option (ℕ × Cursor)
repeat zero beginpid tasks c = none
repeat (suc rounds) beginpid tasks c =
    let r = pass c.last_pid tasks c.next_safe in
    let c' = advance c.last_pid r.1 in
    let again = repeat rounds beginpid tasks c' in
    if r.0
    then (if c'.last_pid == beginpid then some (0, c') else again)
    else some (c.last_pid, record { last_pid = c.last_pid; next_safe = r.1 })

-- A call without CLONE_PID.
unfoldable pub get_pid : List Ids → Cursor → Option (ℕ × Cursor)
get_pid tasks c =
    let next = c.last_pid + 1 in
    let rounds : ℕ = pid_max in
    if too_large next
    then repeat rounds c.last_pid tasks (record { last_pid = 300; next_safe = pid_max })
    else if leb c.next_safe next
    then repeat rounds c.last_pid tasks (record { last_pid = next; next_safe = pid_max })
    else some (next, record { last_pid = next; next_safe = c.next_safe })
