-- ===== src/Creds/User.antt =====
-- `set_user`, `cap_emulate_setxuid`, `sys_setreuid`, `sys_setuid`, `sys_setresuid` and
-- `sys_setfsuid`.
use operation_systems.Common.{ℕ, ◌+◌, ◌-◌, Bool, ◌&&◌, ◌||◌, not, ◌==◌, if◌then◌else◌}
use operation_systems.Common.Int.{ℤ, pos}
use operation_systems.Creds.Ids.{Cred, Caps, no_caps, eperm, eagain, unchanged, differs, undump_if}

-- What of the kernel the calls depend on: `capable(CAP_SETUID)`, whether `alloc_uid` finds memory,
-- and `!issecure(SECURE_NO_SETUID_FIXUP)`.
pub record Env : Type 0 where
  pub capable : Bool
  pub alloc_uid : Bool
  pub fixup : Bool

-- The capabilities after a change of the user numbers from the given old ones.
unfoldable pub cap_emulate_setxuid : ℕ → ℕ → ℕ → Cred → Cred
cap_emulate_setxuid old_ruid old_euid old_suid c =
    let leaves : Bool =
      (old_ruid == 0 || old_euid == 0 || old_suid == 0)
      && (differs c.uid 0 && differs c.euid 0 && differs c.suid 0)
      && not c.keep_capabilities in
    let permitted : Caps = if leaves then no_caps else c.cap_permitted in
    let effective : Caps = if leaves then no_caps else c.cap_effective in
    let effective' : Caps = if old_euid == 0 && differs c.euid 0 then no_caps else effective in
    record c {
      cap_permitted = permitted;
      cap_effective = if differs old_euid 0 && c.euid == 0 then permitted else effective';
    }

abbrev pub fix_caps : Env → Cred → Cred → Cred
fix_caps env old c = if env.fixup then cap_emulate_setxuid old.uid old.euid old.suid c else c

abbrev pub move_process : ℕ → ℕ → (ℕ → ℕ) → ℕ → ℕ
move_process from to count u =
    let more : ℕ = if to == u then count u + 1 else count u in if from == u then more - 1 else more

-- `set_user`, when `alloc_uid` succeeds.
unfoldable pub set_user : ℕ → Bool → Cred → Cred
set_user new_ruid dumpclear c = record (undump_if dumpclear c) {
  uid = new_ruid;
  user = new_ruid;
  processes = move_process c.user new_ruid c.processes;
}

abbrev pub change_user : ℕ → Bool → Cred → Cred
change_user new_ruid dumpclear c =
    if differs new_ruid c.uid then set_user new_ruid dumpclear c else c

unfoldable pub setreuid : Env → ℕ → ℕ → Cred → ℤ × Cred
setreuid env ruid euid c =
    let new_ruid : ℕ = if differs ruid unchanged then ruid else c.uid in
    let new_euid : ℕ = if differs euid unchanged then euid else c.euid in
    let c' : Cred = change_user new_ruid (differs new_euid c.euid) c in
    if differs ruid unchanged && differs c.uid ruid && differs c.euid ruid && not env.capable
    then (eperm, c)
    else if differs euid unchanged
        && differs c.uid euid
        && differs c.euid euid
        && differs c.suid euid
        && not env.capable
    then (eperm, c)
    else if differs new_ruid c.uid && not env.alloc_uid
    then (eagain, c)
    else (
      pos 0,
      fix_caps env c (record (undump_if (differs new_euid c.euid) c') {
        fsuid = new_euid;
        euid = new_euid;
        suid =
            if differs ruid unchanged || (differs euid unchanged && differs euid c.uid)
            then new_euid
            else c.suid;
      }),
    )

unfoldable pub setuid : Env → ℕ → Cred → ℤ × Cred
setuid env uid c =
    let c' : Cred = if env.capable then change_user uid (differs c.euid uid) c else c in
    if env.capable && differs uid c.uid && not env.alloc_uid
    then (eagain, c)
    else if not env.capable && differs uid c.uid && differs uid c.suid
    then (eperm, c)
    else (
      pos 0,
      fix_caps env c (record (undump_if (differs c.euid uid) c') {
        fsuid = uid;
        euid = uid;
        suid = if env.capable then uid else c.suid;
      }),
    )

-- A number that an unprivileged caller of `setresuid` may not ask for.
abbrev pub foreign_uid : ℕ → Cred → Bool
foreign_uid id c =
    differs id unchanged && differs id c.uid && differs id c.euid && differs id c.suid

unfoldable pub setresuid : Env → ℕ → ℕ → ℕ → Cred → ℤ × Cred
setresuid env ruid euid suid c =
    let new_euid : ℕ = if differs euid unchanged then euid else c.euid in
    let c' : Cred =
      if differs ruid unchanged then change_user ruid (differs euid c.euid) c else c in
    if not env.capable && (foreign_uid ruid c || foreign_uid euid c || foreign_uid suid c)
    then (eperm, c)
    else if differs ruid unchanged && differs ruid c.uid && not env.alloc_uid
    then (eagain, c)
    else (
      pos 0,
      fix_caps env c (record (undump_if (differs euid unchanged && differs euid c.euid) c') {
        euid = new_euid;
        fsuid = new_euid;
        suid = if differs suid unchanged then suid else c.suid;
      }),
    )

-- `fs_mask` is CAP_FS_MASK. The result is the old number.
unfoldable pub setfsuid : Env → Caps → ℕ → Cred → ℕ × Cred
setfsuid env fs_mask uid c =
    let c' : Cred =
      if uid == c.uid || uid == c.euid || uid == c.suid || uid == c.fsuid || env.capable
      then record (undump_if (differs uid c.fsuid) c) { fsuid = uid }
      else c in
    let lost : Caps =
      if c.fsuid == 0 && differs c'.fsuid 0
      then (λ k. c.cap_effective k && not (fs_mask k))
      else c.cap_effective in
    let gained : Caps =
      if differs c.fsuid 0 && c'.fsuid == 0
      then (λ k. lost k || (c.cap_permitted k && fs_mask k))
      else lost in
    (c.fsuid, record c' { cap_effective = if env.fixup then gained else c.cap_effective })
