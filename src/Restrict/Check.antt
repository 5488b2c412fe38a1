-- ===== src/Restrict/Check.antt =====
-- `syscall_check` of HW1/kernel/restrict.c, which the system call entry runs before each call.
use operation_systems.Common.{ℕ, zero, suc, ◌+◌, ◌%◌, ◌^◌, Option, none, some, ltb, if◌then◌else◌}
use operation_systems.Common.Int.{ℤ, pos, negsuc, leb_ℤ, ◌==ℤ◌}
use operation_systems.Restrict.Task.{Scr, Fai, Task, load, store, is_null}

-- `REST_LIST_SIZE`, and the 100 of `log_list_size % 100`
abbrev pub rest_list_size : ℕ
rest_list_size = 100

-- The entry that a refused call leaves in the log.
abbrev pub forbidden : ℤ → ℤ → Scr → ℕ → Fai
forbidden num level e jiffies = record {
  syscall_num = num;
  syscall_restriction_threshold = e.restriction_threshold;
  proc_restriction_level = level;
  time = jiffies;
}

-- The body of the innermost branch: write the entry, count it, and refuse. The counter is an int;
-- to count past its largest value has no defined result.
unfoldable pub log_forbidden : ℤ → ℕ → Scr → Task → Option (ℤ × Task)
log_forbidden num jiffies e curr =
    elim (store curr.log_list (curr.log_list_size % rest_list_size)
      (forbidden num curr.proc_restriction_level e jiffies)) [
        | none ↦ none
        | some log ↦
            if ltb (curr.log_list_size + 1) (2 ^ 31)
            then some
                (negsuc 0, record curr { log_list = log; log_list_size = curr.log_list_size + 1 })
            else none
      ]

-- The `for` loop from index `i` with `rounds` entries left. `none` is a wrong memory access.
unfoldable pub check_from : ℤ → ℕ → ℕ → ℕ → Task → Option (ℤ × Task)
unfolding log_forbidden
check_from num jiffies zero i curr = some (pos 0, curr)
check_from num jiffies (suc rounds) i curr =
    let next = check_from num jiffies rounds (suc i) curr in
    elim (load curr.restrictions_list i) [
      | none ↦ none
      | some e ↦
          if e.syscall_num ==ℤ num
          then if leb_ℤ e.restriction_threshold curr.proc_restriction_level
            then some (pos 0, curr)
            else if is_null curr.log_list
            then next
            else log_forbidden num jiffies e curr
          else next
    ]

-- `syscall_check(num, curr)` for a `curr` that is not NULL; the entry code passes the current task.
unfoldable pub syscall_check : ℤ → ℕ → Task → Option (ℤ × Task)
unfolding check_from
syscall_check num jiffies curr =
    if ltb curr.restrictions_list_size 1
    then some (pos 0, curr)
    else check_from num jiffies curr.restrictions_list_size 0 curr
