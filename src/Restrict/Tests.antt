-- ===== src/Restrict/Tests.antt =====
-- The restriction calls on small tasks, and each of their theorems at one of these.
use operation_systems.Common.{
  ltb, ℕ, zero, suc, ◌%◌, ◌≡◌, refl, inl, Bool, true, false, some, none, List, [], ◌∷◌, ◌++◌, arith,
  length, take, set, replicate, length-replicate,
}
use native.Mathlib.Numerals.{add-one}
use operation_systems.Common.Int.{ℤ, pos, negsuc}
use operation_systems.Restrict.Task.{block, Scr, Fai, Task, find_task_by_pid}
use operation_systems.Restrict.Check.{syscall_check}
use operation_systems.Restrict.Calls.{Sys, sc_restrict, get_process_log, einval, einval_code}
use operation_systems.Restrict.Ring.{IsRing, empty-IsRing, push-IsRing}
use operation_systems.Restrict.Checked.{
  IsArmed, refusing, outcome, entries, syscall_check-eq, syscall_check-IsArmed,
}
use operation_systems.Restrict.Recent.{get_process_log-overrun}
use operation_systems.Restrict.Installed.{level_out, sc_restrict-refuses}

abbrev rules : List Scr
rules =
    record { syscall_num = pos 5; restriction_threshold = pos 1 }
    ∷ record { syscall_num = pos 2; restriction_threshold = pos 2 }
    ∷ record { syscall_num = pos 5; restriction_threshold = pos 0 }
    ∷ []

abbrev at_time : ℕ → Fai
at_time n = record {
  syscall_num = pos 5;
  syscall_restriction_threshold = pos 1;
  proc_restriction_level = pos 0;
  time = n;
}

abbrev blank_log : List Fai
blank_log = replicate 100 (at_time 0)

-- The log and the history after `n` refusals, one at each time.
ring_buf : ℕ → List Fai
ring_buf zero = blank_log
ring_buf (suc n) = set (ring_buf n) (n % 100) (at_time n)

history : ℕ → List Fai
history zero = []
history (suc n) = history n ++ at_time n ∷ []

ring_buf-IsRing : (n : ℕ) → IsRing (ring_buf n) n (history n)
unfolding ring_buf history
ring_buf-IsRing zero = empty-IsRing blank_log (length-replicate 100 (at_time 0))
ring_buf-IsRing (suc n) = rw (← add-one n) (push-IsRing (at_time n) (ring_buf-IsRing n))

task_after : ℕ → Task
task_after n = record {
  pid = pos 7;
  proc_restriction_level = pos 0;
  restrictions_list = block rules;
  restrictions_list_size = 3;
  log_list = block (ring_buf n);
  log_list_size = n;
}

task_after-IsArmed : (n : ℕ) → IsArmed (task_after n) rules (ring_buf n) (history n)
unfolding task_after
task_after-IsArmed n = record {
  rules = refl;
  rule_count = refl;
  log = refl;
  ring = ring_buf-IsRing n;
}

sys_after : ℕ → Sys
sys_after n = record { errno = pos 0; tasks = task_after n ∷ [] }

abbrev grants_all : ℕ → Bool
grants_all n = true

abbrev grants_none : ℕ → Bool
grants_none n = false

-- What a user whose rules are all the same leaves in a block.
copied : ℕ → List Scr
copied n = replicate n (record { syscall_num = pos 2; restriction_threshold = pos 2 })

found_after : (n : ℕ) → find_task_by_pid (pos 7) (sys_after n).tasks ≡ some (task_after n)
unfolding sys_after find_task_by_pid task_after
found_after n = refl

size_after : (n : ℕ) → (task_after n).log_list_size ≡ n
unfolding task_after
size_after n = refl

-- Call 5 is refused by the first rule for it; call 3 has no rule.
syscall_check-eq_example :
    syscall_check (pos 5) 42 (task_after 1)
    ≡ outcome
        (pos 5)
        42
        (task_after 1)
        rules
        (ring_buf 1)
        (refusing (pos 5) (task_after 1).proc_restriction_level rules)
unfolding task_after
syscall_check-eq_example =
    syscall_check-eq (pos 5) 42 (task_after 1) rules (ring_buf 1) (task_after-IsArmed 1)
      (omega arith)

refusing-rules :
    (refusing (pos 5) (pos 0) rules
      ≡ some (record { syscall_num = pos 5; restriction_threshold = pos 1 }))
    × (refusing (pos 5) (pos 1) rules ≡ none)
    × (refusing (pos 3) (pos 0) rules ≡ none)
refusing-rules = (refl, refl, refl)

abbrev first_rule : Scr
first_rule = record { syscall_num = pos 5; restriction_threshold = pos 1 }

syscall_check-IsArmed_example :
    (r : ℤ) × (t' : Task) × (buf' : List Fai) × (syscall_check (pos 5) 42 (task_after 1)
      ≡ some (r, t'))
    × IsArmed t' rules buf' (
        history 1
        ++ entries
            (pos 5)
            42
            (task_after 1)
            rules
            (ring_buf 1)
            (refusing (pos 5) (task_after 1).proc_restriction_level rules))
unfolding task_after
syscall_check-IsArmed_example =
    syscall_check-IsArmed (pos 5) 42 (task_after 1) rules (ring_buf 1) (task_after-IsArmed 1)
      (omega arith)

-- After 150 refusals the seam stands at 50.
get_process_log-overrun_example :
    (es : List Fai) × (get_process_log grants_all (pos 7) (pos 60) (sys_after 150)
      ≡ some (record {
        result = pos 0;
        to_usr = es;
        overran = ltb 60 (length es);
        user_mem = take 60 es;
        sys = sys_after 150;
      }))
    × (length es ≡ 61)
unfolding task_after
get_process_log-overrun_example =
    get_process_log-overrun grants_all 7 60 (sys_after 150) (found_after 150) refl (omega arith)
      (task_after-IsArmed 150) (omega arith) (omega arith) (omega arith) (omega arith)

sc_restrict-refuses_example :
    sc_restrict grants_all copied blank_log (pos 7) (negsuc 0) (pos 1) (sys_after 1)
    ≡ (einval, record (sys_after 1) { errno = einval_code })
unfolding sys_after find_task_by_pid task_after
sc_restrict-refuses_example =
    sc_restrict-refuses grants_all copied blank_log (pos 7) (negsuc 0) (pos 1) (sys_after 1)
      (level_out (omega arith) (inl (omega arith)))
