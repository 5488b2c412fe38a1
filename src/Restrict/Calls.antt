-- ===== src/Restrict/Calls.antt =====
-- The three system calls of HW1/arch/i386/kernel/hw1_syscalls.c.
use operation_systems.Common.{
  ℕ, zero, suc, ◌+◌, ◌-◌, ◌*◌, ◌/◌, ◌%◌, ◌^◌, Bool, false, ◌||◌, length, Option, none, some, List,
  [], ◌∷◌, ◌++◌, ltb, if◌then◌else◌, take,
}
use Prim.Native.Nat.{min}
use operation_systems.Common.Int.{ℤ, pos, negsuc, pos_part, sub_ℕ, ltb_ℤ}
use operation_systems.Restrict.Task.{
  Ptr, null, freed, block, Scr, Fai, Task, load, is_null, find_task_by_pid, put_task,
}
use operation_systems.Restrict.Check.{rest_list_size}

-- Negated error numbers of Linux, as the calls return them.
abbrev pub esrch : ℤ
esrch = negsuc 2

abbrev pub enomem : ℤ
enomem = negsuc 11

abbrev pub einval : ℤ
einval = negsuc 21

abbrev pub einval_code : ℤ
einval_code = pos 22

-- `extern int errno`, and the tasks that the pid hash finds.
pub record Sys : Type 0 where
  pub errno : ℤ
  pub tasks : List Task

-- `return -e` after `errno = EINVAL`
abbrev pub fail : ℤ → Sys → ℤ × Sys
fail e s = (e, record s { errno = einval_code })

abbrev pub succeed : ℤ → Task → Sys → ℤ × Sys
succeed pid t s = (pos 0, record s { tasks = put_task pid t s.tasks })

-- A failing return that has already written to the task.
abbrev pub fail_after : ℤ → ℤ → Task → Sys → ℤ × Sys
fail_after e pid t s = (e, record { errno = einval_code; tasks = put_task pid t s.tasks })

-- `sizeof` of the two structs, of 2 and 4 ints.
abbrev pub sizeof_scr : ℕ
sizeof_scr = 8

abbrev pub sizeof_fai : ℕ
sizeof_fai = 16

-- `n * size` as the 32-bit `size_t` that kmalloc and the copies take.
abbrev pub bytes : ℕ → ℕ → ℕ
bytes n size = (n * size) % 2 ^ 32

abbrev pub bad_level : ℤ → Bool
bad_level level = ltb_ℤ level (pos 0) || ltb_ℤ (pos 2) level

-- `kmalloc` says of a number of bytes whether the allocator grants them; `copy_from_user n` is what
-- a new block of `n` entries holds once copy_from_user has run, whose result the code ignores.
module _ (kmalloc : ℕ → Bool) (copy_from_user : ℕ → List Scr) where
  -- The last part: the copy, and the three assignments.
  unfoldable pub install : ℤ → ℤ → ℕ → Task → Sys → ℤ × Sys
  install pid level n t s =
      succeed pid
        (record t {
          restrictions_list = block (copy_from_user (bytes n sizeof_scr / sizeof_scr));
          proc_restriction_level = level;
          restrictions_list_size = n;
        })
        s

  -- From the allocation of the log on. A new block's content is not yet defined: `blank` is it.
  unfoldable pub with_log : List Fai → ℤ → ℤ → ℕ → Task → Sys → ℤ × Sys
  unfolding install
  with_log blank pid level n t s =
      if is_null t.log_list
      then if kmalloc (bytes rest_list_size sizeof_fai)
        then install pid level n (record t { log_list = block blank }) s
        else fail_after enomem pid (record t { restrictions_list = freed }) s
      else install pid level n t s

  -- From the lookup of the task on. The old list is freed before the new one is asked for.
  unfoldable pub restrict_found : List Fai → ℤ → ℤ → ℤ → Sys → Option Task → ℤ × Sys
  unfolding with_log
  restrict_found blank pid level list_size s none = fail esrch s
  restrict_found blank pid level list_size s (some curr) =
      if bad_level level
      then fail einval s
      else if ltb_ℤ list_size (pos 0)
      then fail einval s
      else if kmalloc (bytes (pos_part list_size) sizeof_scr)
      then with_log blank pid level (pos_part list_size) curr s
      else fail_after enomem pid (record curr { restrictions_list = null }) s

  unfoldable pub sc_restrict : List Fai → ℤ → ℤ → ℤ → Sys → ℤ × Sys
  unfolding restrict_found
  sc_restrict blank pid level list_size s =
      if ltb_ℤ pid (pos 0)
      then fail esrch s
      else restrict_found blank pid level list_size s (find_task_by_pid pid s.tasks)

unfoldable pub level_found : ℤ → ℤ → Sys → Option Task → ℤ × Sys
level_found pid level s none = fail esrch s
level_found pid level s (some curr) =
    if bad_level level
    then fail einval s
    else succeed pid (record curr { proc_restriction_level = level }) s

unfoldable pub set_proc_restriction : ℤ → ℤ → Sys → ℤ × Sys
unfolding level_found
set_proc_restriction pid level s =
    if ltb_ℤ pid (pos 0)
    then fail esrch s
    else level_found pid level s (find_task_by_pid pid s.tasks)

-- The entries `log_list[i]`, … that a copying loop of `rounds` rounds reads.
unfoldable pub copy_log : Ptr Fai → ℕ → ℕ → Option (List Fai)
copy_log log i zero = some []
copy_log log i (suc rounds) = elim (load log i) [
  | none ↦ none
  | some e ↦ elim (copy_log log (suc i) rounds) [ none ↦ none | some es ↦ some (e ∷ es) ]
]

-- `index`, where the first loop starts. `pos 0` bounds the size from below before this is read.
abbrev pub first_index : ℕ → ℕ → ℤ
first_index n size =
    if ltb n rest_list_size then sub_ℕ n size else sub_ℕ (rest_list_size + n % rest_list_size) size

abbrev pub end_of_log : ℕ → ℕ
end_of_log n = if ltb n rest_list_size then n else rest_list_size

-- The second loop, from index 0, when `count` entries were copied: it stops at `count <= size`.
abbrev pub second_rounds : ℕ → ℕ → ℕ → ℕ
second_rounds n size count = if ltb count size then min n (size + 1 - count) else 0

abbrev pub both : Option (List Fai) → Option (List Fai) → Option (List Fai)
both none back = none
both (some front) none = none
both (some front) (some back) = some (front ++ back)

-- The two loops from a start index on; a negative one is out of the log.
abbrev pub collect_at : Task → ℕ → ℤ → Option (List Fai)
collect_at t size (negsuc k) = none
collect_at t size (pos i) =
    let count = end_of_log t.log_list_size - i in
    both (copy_log t.log_list i count)
      (copy_log t.log_list 0 (second_rounds t.log_list_size size count))

-- Everything that is stored in `to_usr`, in order.
unfoldable pub collect_log : Task → ℕ → Option (List Fai)
unfolding copy_log
collect_log t size = collect_at t size (first_index t.log_list_size size)

-- What a call hands back: its result, what it stored in the kernel's buffer of `size` entries, whether
-- a store went past the end of that buffer, and what it copied to the user.
pub record Reply : Type 0 where
  pub result : ℤ
  pub to_usr : List Fai
  pub overran : Bool
  pub user_mem : List Fai
  pub sys : Sys

abbrev pub refuse : ℤ → Sys → Option Reply
refuse e s = some (record {
  result = e;
  to_usr = [];
  overran = false;
  user_mem = [];
  sys = record s { errno = einval_code };
})

-- The copy to the user, of `size` entries.
abbrev pub reply : ℕ → Sys → Option (List Fai) → Option Reply
reply size s none = none
reply size s (some es) = some (record {
  result = pos 0;
  to_usr = es;
  overran = ltb size (length es);
  user_mem = take size es;
  sys = s;
})

-- From the lookup of the task on.
unfoldable pub report : (ℕ → Bool) → ℤ → Sys → Option Task → Option Reply
unfolding collect_log
report kmalloc size s none = refuse esrch s
report kmalloc size s (some curr) =
    if ltb_ℤ (pos curr.log_list_size) size || ltb_ℤ size (pos 0)
    then refuse einval s
    else if kmalloc (bytes (pos_part size) sizeof_fai)
    then reply (pos_part size) s (collect_log curr (pos_part size))
    else refuse enomem s

unfoldable pub get_process_log : (ℕ → Bool) → ℤ → ℤ → Sys → Option Reply
unfolding report
get_process_log kmalloc pid size s =
    if ltb_ℤ pid (pos 0)
    then refuse esrch s
    else report kmalloc size s (find_task_by_pid pid s.tasks)
