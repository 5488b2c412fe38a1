-- ===== src/Settings/Process.antt =====
-- `sys_prctl` and `sys_umask`.
use operation_systems.Common.{
  ℕ, ◌%◌, ◌^◌, Bool, not, ◌&&◌, ◌||◌, ltb, leb, ◌==◌, Option, none, some, if◌then◌else◌,
}
use operation_systems.Common.Int.{ℤ, pos}
use operation_systems.Settings.Host.{einval, efault}

-- The options; `other` is every number that is none of them.
pub data PrctlOption : Type 0 where
  set_pdeathsig get_pdeathsig get_dumpable set_dumpable : PrctlOption
  set_unalign get_unalign set_fpemu get_fpemu : PrctlOption
  get_keepcaps set_keepcaps other : PrctlOption

-- The fields of the current task, of its `mm` and its `fs`.
pub record Settings : Type 0 where
  pub pdeath_signal : ℕ
  pub dumpable : ℕ
  pub keep_capabilities : ℕ
  pub umask : ℕ

-- The int stored of an `unsigned long` is negative from 2 ^ 31 on.
abbrev pub is_signal : ℕ → ℕ → Bool
is_signal nsig sig = not (leb (2 ^ 31) sig || ltb nsig sig)

abbrev pub as_flag : ℕ → ℤ
as_flag n = if n == 0 then pos 0 else pos 1

-- The result, the fields, and what `put_user` stores. `fault` is a failing `put_user`, `nsig` is _NSIG.
-- The processor has no control of alignment or of the emulation of floats.
unfoldable pub prctl : ℕ → Bool → PrctlOption → ℕ → Settings → ℤ × Settings × Option ℕ
prctl nsig fault set_pdeathsig arg s =
    if is_signal nsig arg
    then (pos 0, record s { pdeath_signal = arg }, none)
    else (einval, s, none)
prctl nsig fault get_pdeathsig arg s =
    if fault then (efault, s, none) else (pos 0, s, some s.pdeath_signal)
prctl nsig fault get_dumpable arg s = (as_flag s.dumpable, s, none)
prctl nsig fault set_dumpable arg s =
    if not (arg == 0) && not (arg == 1)
    then (einval, s, none)
    else (pos 0, record s { dumpable = arg }, none)
prctl nsig fault get_keepcaps arg s = (as_flag s.keep_capabilities, s, none)
prctl nsig fault set_keepcaps arg s =
    if not (arg == 0) && not (arg == 1)
    then (einval, s, none)
    else (pos 0, record s { keep_capabilities = arg }, none)
prctl nsig fault set_unalign arg s = (einval, s, none)
prctl nsig fault get_unalign arg s = (einval, s, none)
prctl nsig fault set_fpemu arg s = (einval, s, none)
prctl nsig fault get_fpemu arg s = (einval, s, none)
prctl nsig fault other arg s = (einval, s, none)

-- `sys_umask`, with S_IRWXUGO the lowest nine bits.
unfoldable pub umask : ℕ → Settings → ℕ × Settings
umask mask s = (s.umask, record s { umask = mask % 2 ^ 9 })
