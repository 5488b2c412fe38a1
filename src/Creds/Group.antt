-- ===== src/Creds/Group.antt =====
-- `sys_setregid`, `sys_setgid`, `sys_setresgid` and `sys_setfsgid`. `capable` is
-- `capable(CAP_SETGID)`; the result is 0 or a negated error number.
use operation_systems.Common.{ℕ, Bool, ◌&&◌, ◌||◌, not, ◌==◌, if◌then◌else◌}
use operation_systems.Common.Int.{ℤ, pos}
use operation_systems.Creds.Ids.{Cred, eperm, unchanged, differs, undump_if}

unfoldable pub setregid : Bool → ℕ → ℕ → Cred → ℤ × Cred
setregid capable rgid egid c =
    let new_rgid : ℕ = if differs rgid unchanged then rgid else c.gid in
    let new_egid : ℕ = if differs egid unchanged then egid else c.egid in
    if differs rgid unchanged && not (c.gid == rgid || c.egid == rgid || capable)
    then (eperm, c)
    else if differs egid unchanged
        && not (c.gid == egid || c.egid == egid || c.sgid == egid || capable)
    then (eperm, c)
    else (
      pos 0,
      record (undump_if (differs new_egid c.egid) c) {
        sgid =
            if differs rgid unchanged || (differs egid unchanged && differs egid c.gid)
            then new_egid
            else c.sgid;
        fsgid = new_egid;
        egid = new_egid;
        gid = new_rgid;
      },
    )

unfoldable pub setgid : Bool → ℕ → Cred → ℤ × Cred
setgid capable gid c =
    if capable
    then (
      pos 0,
      record (undump_if (differs c.egid gid) c) { gid = gid; egid = gid; sgid = gid; fsgid = gid },
    )
    else if gid == c.gid || gid == c.sgid
    then (pos 0, record (undump_if (differs c.egid gid) c) { egid = gid; fsgid = gid })
    else (eperm, c)

-- A number that an unprivileged caller of `setresgid` may not ask for.
abbrev pub foreign_gid : ℕ → Cred → Bool
foreign_gid id c =
    differs id unchanged && differs id c.gid && differs id c.egid && differs id c.sgid

unfoldable pub setresgid : Bool → ℕ → ℕ → ℕ → Cred → ℤ × Cred
setresgid capable rgid egid sgid c =
    let new_egid : ℕ = if differs egid unchanged then egid else c.egid in
    if not capable && (foreign_gid rgid c || foreign_gid egid c || foreign_gid sgid c)
    then (eperm, c)
    else (
      pos 0,
      record (undump_if (differs egid unchanged && differs egid c.egid) c) {
        egid = new_egid;
        fsgid = new_egid;
        gid = if differs rgid unchanged then rgid else c.gid;
        sgid = if differs sgid unchanged then sgid else c.sgid;
      },
    )

-- The result is the old number.
unfoldable pub setfsgid : Bool → ℕ → Cred → ℕ × Cred
setfsgid capable gid c =
    if gid == c.gid || gid == c.egid || gid == c.sgid || gid == c.fsgid || capable
    then (c.fsgid, record (undump_if (differs gid c.fsgid) c) { fsgid = gid })
    else (c.fsgid, c)
