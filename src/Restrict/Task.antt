-- ===== src/Restrict/Task.antt =====
-- The structs `scr` and `fai` and the fields of `task_struct` in HW1/include/linux/sched.h, with
-- kernel memory as it can be seen through a pointer.
use operation_systems.Common.{
  ℕ, Bool, true, false, Option, none, some, List, [], ◌∷◌, ltb, if◌then◌else◌, length, get_elem?,
  set,
}
use operation_systems.Common.Int.{ℤ, pos, ◌==ℤ◌}

-- A pointer to an array: NULL, one that was given to kfree and is still held, or a live block.
pub data Ptr (A : Type 0) : Type 0 where
  null : Ptr A
  freed : Ptr A
  block : List A → Ptr A

module _ {A : Type 0} where
  abbrev pub is_null : Ptr A → Bool
  is_null null = true
  is_null freed = false
  is_null (block xs) = false

  -- `p[i]`; `none` is an access that C does not allow.
  abbrev pub load : Ptr A → ℕ → Option A
  load null i = none
  load freed i = none
  load (block xs) i = get_elem? xs i

  -- `p[i] = v`
  abbrev pub store : Ptr A → ℕ → A → Option (Ptr A)
  store null i v = none
  store freed i v = none
  store (block xs) i v = if ltb i (length xs) then some (block (set xs i v)) else none

pub record Scr : Type 0 where
  pub syscall_num : ℤ
  pub restriction_threshold : ℤ

pub record Fai : Type 0 where
  pub syscall_num : ℤ
  pub syscall_restriction_threshold : ℤ
  pub proc_restriction_level : ℤ
  pub time : ℕ

pub record Task : Type 0 where
  pub pid : ℤ
  pub proc_restriction_level : ℤ
  pub restrictions_list : Ptr Scr
  pub restrictions_list_size : ℕ
  pub log_list : Ptr Fai
  pub log_list_size : ℕ

-- The five assignments that `do_fork` makes in the child, a copy of its parent with a new pid.
unfoldable pub fork_child : ℤ → Task → Task
fork_child child_pid parent = record parent {
  pid = child_pid;
  proc_restriction_level = pos 0;
  log_list_size = 0;
  restrictions_list = null;
  log_list = null;
  restrictions_list_size = 0;
}

-- `release_task` frees the two arrays, and leaves the pointers as they are.
module _ {A : Type 0} where
  abbrev pub kfree : Ptr A → Ptr A
  kfree null = null
  kfree freed = freed
  kfree (block xs) = freed

unfoldable pub release_task : Task → Task
release_task t = record t {
  log_list = kfree t.log_list;
  restrictions_list = kfree t.restrictions_list;
  pid = pos 0;
}

-- The chain of the pid hash that is walked for `pid`.
unfoldable pub find_task_by_pid : ℤ → List Task → Option Task
find_task_by_pid pid [] = none
find_task_by_pid pid (p ∷ chain) = if p.pid ==ℤ pid then some p else find_task_by_pid pid chain

-- A write through the pointer that `find_task_by_pid` returned.
unfoldable pub put_task : ℤ → Task → List Task → List Task
put_task pid t [] = []
put_task pid t (p ∷ chain) = if p.pid ==ℤ pid then t ∷ chain else p ∷ put_task pid t chain
