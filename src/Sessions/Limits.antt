-- ===== src/Sessions/Limits.antt =====
-- `sys_getrlimit`, `sys_old_getrlimit` and `sys_setrlimit`.
use operation_systems.Common.{
  ℕ, ◌-◌, ◌^◌, ◌/◌, Bool, ◌&&◌, ◌||◌, not, Option, none, some, ltb, leb, ◌==◌, if◌then◌else◌,
}
use operation_systems.Common.Int.{ℤ, pos, negsuc}
use operation_systems.Sessions.Groups.{eperm, einval}

abbrev pub efault : ℤ
efault = negsuc 13

pub record Rlimit : Type 0 where
  pub rlim_cur : ℕ
  pub rlim_max : ℕ

-- The constants of the headers that the calls depend on.
pub record Numbers : Type 0 where
  pub rlim_nlimits : ℕ
  pub rlimit_nofile : ℕ
  pub rlimit_rss : ℕ
  pub rlim_infinity : ℕ
  pub nr_open : ℕ
  pub page_size : ℕ

-- `rlim` of the task; `rlimit_rss` is `current->mm->rlimit_rss`, `none` without an `mm`.
pub record Limits : Type 0 where
  pub rlim : ℕ → Rlimit
  pub mm_rlimit_rss : Option ℕ

-- What is copied to the user, and the result; `fault` is a failing copy_to_user.
unfoldable pub getrlimit : Numbers → Bool → ℕ → Limits → ℤ × Option Rlimit
getrlimit nums fault resource l =
    if leb nums.rlim_nlimits resource
    then (einval, none)
    else if fault
    then (efault, none)
    else (pos 0, some (l.rlim resource))

abbrev pub at_most : ℕ → ℕ → ℕ
at_most bound x = if ltb bound x then bound else x

unfoldable pub old_getrlimit : Numbers → Bool → ℕ → Limits → ℤ × Option Rlimit
old_getrlimit nums fault resource l =
    let x = l.rlim resource in
    if leb nums.rlim_nlimits resource then (einval, none) else if fault then (efault, none) else (
      pos 0,
      some (record {
        rlim_cur = at_most (2 ^ 31 - 1) x.rlim_cur;
        rlim_max = at_most (2 ^ 31 - 1) x.rlim_max;
      }),
    )

-- The limit of the pages in memory, where the task has an `mm`.
abbrev pub rss_pages : Numbers → Rlimit → Option ℕ → Option ℕ
rss_pages nums new none = none
rss_pages nums new (some old) =
    if new.rlim_cur == nums.rlim_infinity
    then some nums.rlim_infinity
    else some (new.rlim_cur / nums.page_size)

abbrev pub put_limit : ℕ → Rlimit → Limits → Limits
put_limit resource new l = record l { rlim = λ r. if resource == r then new else l.rlim r }

-- The tests of the new limit, once it is copied; `copy` is what copy_from_user delivers.
abbrev pub set_copied : Numbers → Bool → ℕ → Limits → Option Rlimit → ℤ × Limits
set_copied nums capable resource l none = (efault, l)
set_copied nums capable resource l (some new) =
    let old = l.rlim resource in
    if (ltb old.rlim_max new.rlim_cur || ltb old.rlim_max new.rlim_max) && not capable
    then (eperm, l)
    else if resource == nums.rlimit_nofile
        && (ltb nums.nr_open new.rlim_cur || ltb nums.nr_open new.rlim_max)
    then (eperm, l)
    else (
      pos 0,
      put_limit resource new (
          if not (resource == nums.rlimit_nofile) && resource == nums.rlimit_rss
          then record l { mm_rlimit_rss = rss_pages nums new l.mm_rlimit_rss }
          else l),
    )

unfoldable pub setrlimit : Numbers → Bool → ℕ → Option Rlimit → Limits → ℤ × Limits
setrlimit nums capable resource copy l =
    if leb nums.rlim_nlimits resource then (einval, l) else set_copied nums capable resource l copy
