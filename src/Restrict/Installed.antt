-- ===== src/Restrict/Installed.antt =====
-- `sys_sc_restrict` and `sys_set_proc_restriction`: what a caller may rely on.
use operation_systems.Common.{
  ℕ, ◌≡◌, ◌⊎◌, inl, inr, refl, Bool, Option, some, none, List, [], ◌∷◌, Bool-cases, if◌then◌else◌,
  arith, length, ◌≢◌,
}
use operation_systems.Common.Int.{ℤ, pos, negsuc, ltb_ℤ, ◌≤ℤ◌, ◌==ℤ◌, ==ℤ_refl, ==ℤ_eq}
use operation_systems.Restrict.Task.{null, block, Scr, Fai, Task, find_task_by_pid, put_task}
use operation_systems.Restrict.Calls.{Sys, sc_restrict, restrict_found, esrch, einval, einval_code}
use operation_systems.Restrict.Ring.{IsRing}

-- A task that was put back is what the next lookup of its pid finds.
pub find_task_by_pid-put_task :
    (pid : ℤ) (t' : Task) (ts : List Task) {t : Task}
    → find_task_by_pid pid ts ≡ some t
    → t'.pid ≡ pid
    → find_task_by_pid pid (put_task pid t' ts) ≡ some t'
unfolding find_task_by_pid put_task
find_task_by_pid-put_task pid t' [] f e = cc
find_task_by_pid-put_task pid t' (p ∷ ts) f e = elim (Bool-cases (p.pid ==ℤ pid)) [
  | inl here ↦ rw here (rw e (rw (==ℤ_refl pid)))
  | inr later ↦ rw (later, later) (find_task_by_pid-put_task pid t' ts (rw later at f) e)
]

-- A lookup of another pid does not see the write.
pub find_task_by_pid-put_task_ne :
    (pid other : ℤ) (t' : Task) (ts : List Task)
    → t'.pid ≡ pid
    → other ≢ pid
    → find_task_by_pid other (put_task pid t' ts) ≡ find_task_by_pid other ts
unfolding find_task_by_pid put_task
find_task_by_pid-put_task_ne pid other t' [] e ne = refl
find_task_by_pid-put_task_ne pid other t' (p ∷ ts) e ne = ground (
  arith,
  find_task_by_pid-put_task_ne pid other t' ts e ne,
  ==ℤ_eq p.pid pid,
  ==ℤ_eq p.pid other,
  ==ℤ_eq t'.pid other,
)

-- A task that `sc_restrict` can take up: no log yet and nothing counted, or a ring.
abbrev pub IsReady : Task → List Fai → List Fai → Type 0
IsReady t buf hist =
    ((t.log_list ≡ null) × (t.log_list_size ≡ 0) × (hist ≡ []) × (length buf ≡ 100))
    ⊎ ((t.log_list ≡ block buf) × IsRing buf t.log_list_size hist)

abbrev pub IsLevel : ℤ → Type 0
IsLevel level = (pos 0 ≤ℤ level) × (level ≤ℤ pos 2)

-- Arguments that the call must refuse, and what it then returns.
pub data Refused (pid level list_size : ℤ) : Option Task → ℤ → Type 0 where
  no_task : Refused pid level list_size none esrch
  bad_pid : {t : Task} → pid ≤ℤ negsuc 0 → Refused pid level list_size (some t) esrch
  level_out :
      {t : Task}
      → pos 0 ≤ℤ pid
      → (level ≤ℤ negsuc 0) ⊎ (pos 3 ≤ℤ level)
      → Refused pid level list_size (some t) einval
  bad_size :
      {t : Task}
      → pos 0 ≤ℤ pid
      → list_size ≤ℤ negsuc 0
      → Refused pid level list_size (some t) einval

module _ (kmalloc : ℕ → Bool) (copy_from_user : ℕ → List Scr) (blank : List Fai) where
  -- A call of `sc_restrict` with a pid of no task, a pid or a size below 0, or a level outside 0 to 2
  -- changes no task. It returns ESRCH for the pid and EINVAL else, and sets errno to EINVAL.
  pub sc_restrict-refuses :
      (pid level list_size : ℤ) (s : Sys) {r : ℤ}
      → Refused pid level list_size (find_task_by_pid pid s.tasks) r
      → sc_restrict kmalloc copy_from_user blank pid level list_size s
        ≡ (r, record s { errno = einval_code })
  unfolding sc_restrict
  sc_restrict-refuses pid level list_size s {r} = go (find_task_by_pid pid s.tasks) r
    where
      go :
          (found : Option Task) (r : ℤ)
          → Refused pid level list_size found r
          → (if ltb_ℤ pid (pos 0)
              then (esrch, record s { errno = einval_code })
              else restrict_found kmalloc copy_from_user blank pid level list_size s found)
            ≡ (r, record s { errno = einval_code })
      go none r no_task = ground arith
      go (some t) r (bad_pid h) = ground arith
      go (some t) r (level_out p (inl h)) = ground arith
      go (some t) r (level_out p (inr h)) = ground arith
      go (some t) r (bad_size p h) = ground arith

  module _ (pid n : ℕ) (level : ℤ) (s : Sys) {t : Task}
      (found : find_task_by_pid (pos pid) s.tasks ≡ some t) (in_range : IsLevel level) where
    -- The new list and log of the task, when both requests for memory are granted.
    abbrev pub installed : List Fai → Task
    installed buf = record t {
      restrictions_list = block (copy_from_user n);
      restrictions_list_size = n;
      proc_restriction_level = level;
      log_list = block buf;
    }

    after : List Fai → ℤ × Sys
    after buf = (pos 0, record s { tasks = put_task (pos pid) (installed buf) s.tasks })
