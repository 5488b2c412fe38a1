-- ===== src/Creds/Dropped.antt =====
-- What a call that fails leaves behind, and how root gives up its capabilities.
use operation_systems.Common.{ℕ, ◌≡◌, ◌≢◌, ◌⊎◌, Bool, true, false, ◌||◌, ◌==◌, arith}
use operation_systems.Common.Int.{pos, returns_zero_or}
use operation_systems.Creds.Ids.{Cred}
use operation_systems.Creds.User.{Env, set_user, cap_emulate_setxuid, setreuid, setuid, setresuid}

module _ (env : Env) (ruid euid suid : ℕ) (c : Cred) where
  setuid-atomic : (setuid env ruid c).0 ≢ pos 0 → (setuid env ruid c).1 ≡ c
  unfolding setuid
  setuid-atomic h = ground arith

  setreuid-atomic : (setreuid env ruid euid c).0 ≢ pos 0 → (setreuid env ruid euid c).1 ≡ c
  unfolding setreuid
  setreuid-atomic h = ground arith

  setresuid-atomic :
      (setresuid env ruid euid suid c).0 ≢ pos 0 → (setresuid env ruid euid suid c).1 ≡ c
  unfolding setresuid
  setresuid-atomic h = ground arith

  -- `setuid`, `setreuid` and `setresuid` each return 0 or change nothing.
  pub set_uids-atomic :
      (((setuid env ruid c).0 ≡ pos 0) ⊎ ((setuid env ruid c).1 ≡ c))
      × (((setreuid env ruid euid c).0 ≡ pos 0) ⊎ ((setreuid env ruid euid c).1 ≡ c))
      × (((setresuid env ruid euid suid c).0 ≡ pos 0) ⊎ ((setresuid env ruid euid suid c).1 ≡ c))
  set_uids-atomic = (
    returns_zero_or (λ c'. c' ≡ c) (setuid env ruid c) setuid-atomic,
    returns_zero_or (λ c'. c' ≡ c) (setreuid env ruid euid c) setreuid-atomic,
    returns_zero_or (λ c'. c' ≡ c) (setresuid env ruid euid suid c) setresuid-atomic,
  )

-- One of the three numbers is root's.
abbrev pub has_root : Cred → Bool
has_root c = c.uid == 0 || (c.euid == 0 || c.suid == 0)

-- The caller is an ordinary user in every respect: no number is root's and no capability is left.
abbrev pub IsOrdinary : Cred → Type 0
IsOrdinary c =
    (has_root c ≡ false) × ((k : ℕ) → (c.cap_permitted k ≡ false) × (c.cap_effective k ≡ false))

-- The fixup itself, applied after the numbers have changed.
pub cap_emulate_setxuid-IsOrdinary :
    (old c : Cred)
    → has_root old ≡ true
    → has_root c ≡ false
    → c.keep_capabilities ≡ false
    → IsOrdinary (cap_emulate_setxuid old.uid old.euid old.suid c)
unfolding cap_emulate_setxuid
cap_emulate_setxuid-IsOrdinary old c h n k = (ground arith, λ j. (ground arith, ground arith))

-- A caller with CAP_SETUID one of whose numbers is root's, without `keep_capabilities` and with the
-- fixup on: `setuid` to another number, if memory is found, succeeds and leaves an ordinary user:
-- no number is root's and no capability is permitted or effective.
pub setuid-IsOrdinary :
    (env : Env) (uid : ℕ) (c : Cred)
    → env.capable ≡ true
    → env.alloc_uid ≡ true
    → env.fixup ≡ true
    → has_root c ≡ true
    → c.keep_capabilities ≡ false
    → uid ≢ 0
    → ((setuid env uid c).0 ≡ pos 0) × IsOrdinary (setuid env uid c).1
unfolding setuid set_user cap_emulate_setxuid
setuid-IsOrdinary env uid c able alloc fixup root keep h =
    (ground arith, (ground arith, λ j. (ground arith, ground arith)))

-- With the fixup on and without `keep_capabilities`, a successful `setresuid` after which none of
-- the three numbers is root's, when one was, leaves an ordinary user.
pub setresuid-IsOrdinary :
    (env : Env) (ruid euid suid : ℕ) (c : Cred)
    → env.fixup ≡ true
    → has_root c ≡ true
    → c.keep_capabilities ≡ false
    → (setresuid env ruid euid suid c).0 ≡ pos 0
    → has_root (setresuid env ruid euid suid c).1 ≡ false
    → IsOrdinary (setresuid env ruid euid suid c).1
unfolding setresuid set_user cap_emulate_setxuid
setresuid-IsOrdinary env ruid euid suid c fixup root keep h n =
    (n, λ j. (ground arith, ground arith))
