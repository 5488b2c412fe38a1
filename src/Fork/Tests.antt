-- ===== src/Fork/Tests.antt =====
-- `get_pid` on three tasks, and `do_fork` of the only task that runs.
use operation_systems.Common.{ℕ, ◌+◌, ◌≡◌, refl, false, some, [], ◌∷◌, List, arith}
use mathlib.Core.Option
use operation_systems.Common.Int.{ℤ, pos}
use operation_systems.Sched.Task.{effective_prio}
use operation_systems.Sched.Queue.{enqueue_task}
use operation_systems.Sched.Wake.{activate_task, reward_sleep, wake_up_forked_process}
use operation_systems.Sched.Sample.{with_3}
use operation_systems.Fork.Making.{Procs, CloneFlags, Answers, do_fork, share_slice}
use operation_systems.Fork.Forked.{Forked}
use operation_systems.Fork.Pids.{Ids, get_pid, pass, repeat}
use operation_systems.Fork.Unused.{Chosen, get_pid-Chosen}

abbrev leader : ℕ → Ids
leader n = record { pid = n; pgrp = n; tgid = n; session = n }

abbrev three_tasks : List Ids
three_tasks = leader 1 ∷ leader 300 ∷ leader 400 ∷ []

-- At the greatest number it starts over and skips 300.
starts_over :
    get_pid three_tasks (record { last_pid = 32767; next_safe = 32768 })
    ≡ some (301, record { last_pid = 301; next_safe = 400 })
unfolding get_pid repeat pass
starts_over = refl

get_pid-Chosen_example :
    Chosen 32767 three_tasks (get_pid three_tasks (record { last_pid = 32767; next_safe = 32768 }))
get_pid-Chosen_example =
    get_pid-Chosen three_tasks (record { last_pid = 32767; next_safe = 32768 }) (omega arith)
      (omega arith) (omega arith) (λ n l m. absurd (omega arith))

-- Task 3 of a small run queue, with the number 303.
abbrev running_procs : Procs
running_procs = record {
  rq = with_3;
  ids = λ p. leader (300 + p);
  linked = 3 ∷ [];
  nr_threads = 1;
  user_count = 1;
  processes = 1;
  total_forks = 0;
  cursor = record { last_pid = 303; next_safe = 32768 };
}

abbrev no_flags : CloneFlags
no_flags = record { newns = false; fs = false; pid = false; vfork = false; thread = false }

abbrev all_well : Answers
all_well = record {
  new_struct = some 6;
  rlim_cur = 10;
  max_threads = 10;
  cap_sys_admin = false;
  cap_sys_resource = false;
  copies_fail = false ∷ false ∷ false ∷ false ∷ false ∷ [];
  copy_thread = pos 0;
}

-- The child gets half of the slice of 10 and the next number.
forks_child :
    Option.map {B = ℤ × (ℕ × ℕ)}
      (λ r. (r.0, ((r.1.rq.task 6).time_slice, (r.1.rq.task 3).time_slice)))
      (do_fork 100 0 all_well no_flags running_procs)
    ≡ some (pos 304, (5, 5))
unfolding do_fork get_pid share_slice with_3 activate_task reward_sleep enqueue_task
    wake_up_forked_process effective_prio
forks_child = refl
