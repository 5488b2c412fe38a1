-- ===== src/Creds/Member.antt =====
-- `sys_getgroups`, `sys_setgroups`, `supplemental_group_member`, `in_group_p` and `in_egroup_p`.
use operation_systems.Common.{
  ℕ, zero, suc, Bool, true, false, ◌||◌, not, Option, some, none, List, [], ◌==◌, ltb,
  if◌then◌else◌, take, get_elem?,
}
use operation_systems.Common.Int.{ℤ, pos, ltb_ℤ, pos_part}
use operation_systems.Creds.Ids.{Cred, eperm, einval, efault}

-- `NGROUPS`, the length of the array `groups`.
abbrev pub max_groups : ℕ
max_groups = 32

-- `*groups == grp`, for a read that no array holds never true.
abbrev pub is_group : ℕ → Option ℕ → Bool
is_group grp none = false
is_group grp (some g) = g == grp

-- The `do` loop from an index on, with `left` rounds to go.
unfoldable pub member_from : ℕ → ℕ → List ℕ → ℕ → Bool
member_from grp zero groups i = false
member_from grp (suc left) groups i =
    let rest = member_from grp left groups (suc i) in
    if is_group grp (get_elem? groups i) then true else rest

unfoldable pub supplemental_group_member : ℕ → Cred → Bool
supplemental_group_member grp c = member_from grp c.ngroups c.groups 0

unfoldable pub in_group_p : ℕ → Cred → Bool
in_group_p grp c = if not (grp == c.fsgid) then supplemental_group_member grp c else true

unfoldable pub in_egroup_p : ℕ → Cred → Bool
in_egroup_p grp c = if not (grp == c.egid) then supplemental_group_member grp c else true

-- `copied n` is the array after copy_from_user of `n` numbers into it, and whether that failed. A
-- negative size is a large number as an unsigned.
unfoldable pub setgroups : Bool → (ℕ → Bool × List ℕ) → ℤ → Cred → ℤ × Cred
setgroups capable copied size c =
    if not capable
    then (eperm, c)
    else if ltb_ℤ size (pos 0) || ltb max_groups (pos_part size)
    then (einval, c)
    else if (copied (pos_part size)).0
    then (efault, record c { groups = (copied (pos_part size)).1 })
    else (pos 0, record c { groups = (copied (pos_part size)).1; ngroups = pos_part size })

-- What is copied to the user, and the result; `fault` is a failing copy_to_user.
unfoldable pub getgroups : Bool → ℤ → Cred → ℤ × List ℕ
getgroups fault size c =
    if ltb_ℤ size (pos 0)
    then (einval, [])
    else if pos_part size == 0
    then (pos c.ngroups, [])
    else if ltb (pos_part size) c.ngroups
    then (einval, [])
    else if fault
    then (efault, [])
    else (pos c.ngroups, take c.ngroups c.groups)
