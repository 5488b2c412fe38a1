-- ===== src/Creds/Ids.antt =====
-- The fields of `task_struct` for users, groups and capabilities.
use operation_systems.Common.{ℕ, ◌-◌, ◌^◌, Bool, false, not, List, ◌==◌, if◌then◌else◌}
use operation_systems.Common.Int.{ℤ, negsuc}

abbrev pub eperm : ℤ
eperm = negsuc 0

abbrev pub eagain : ℤ
eagain = negsuc 10

abbrev pub einval : ℤ
einval = negsuc 21

abbrev pub efault : ℤ
efault = negsuc 13

-- `(uid_t) -1`, which asks a call to leave a number as it is.
abbrev pub unchanged : ℕ
unchanged = 2 ^ 32 - 1

abbrev pub differs : ℕ → ℕ → Bool
differs a b = not (a == b)

-- A set of capabilities, by their numbers.
abbrev pub Caps : Type 0
Caps = ℕ → Bool

abbrev pub no_caps : Caps
no_caps c = false

-- `processes` counts the processes of every user, `user` names the one that this process counts for.
pub record Cred : Type 0 where
  pub uid : ℕ
  pub euid : ℕ
  pub suid : ℕ
  pub fsuid : ℕ
  pub gid : ℕ
  pub egid : ℕ
  pub sgid : ℕ
  pub fsgid : ℕ
  pub keep_capabilities : Bool
  pub cap_effective : Caps
  pub cap_permitted : Caps
  pub dumpable : Bool
  pub user : ℕ
  pub processes : ℕ → ℕ
  pub ngroups : ℕ
  pub groups : List ℕ

-- `current->mm->dumpable = 0` if the number changes.
abbrev pub undump_if : Bool → Cred → Cred
undump_if changes c = record c { dumpable = if changes then false else c.dumpable }
