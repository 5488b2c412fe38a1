-- ===== src/Creds/Tests.antt =====
-- Tests and instances of the theorems on users and groups.
use operation_systems.Common.{ℕ, ◌≡◌, ◌⊎◌, refl, true, false, ◌∷◌, replicate, arith}
use operation_systems.Common.Int.{pos}
use operation_systems.Creds.Ids.{Cred, no_caps}
use operation_systems.Creds.User.{Env, setreuid, setuid, setresuid}
use operation_systems.Creds.Member.{member_from, supplemental_group_member, in_group_p}
use operation_systems.Creds.Unprivileged.{KeepsUids, unprivileged-KeepsUids}
use operation_systems.Creds.Dropped.{IsOrdinary, set_uids-atomic, setuid-IsOrdinary}

-- A set-user-number program of user 7 run by user 1000.
abbrev student : Cred
student = record {
  uid = 1000;
  euid = 7;
  suid = 7;
  fsuid = 7;
  gid = 100;
  egid = 100;
  sgid = 100;
  fsgid = 100;
  keep_capabilities = false;
  cap_effective = no_caps;
  cap_permitted = no_caps;
  dumpable = true;
  user = 1000;
  processes = (λ u. 5);
  ngroups = 2;
  groups = 4 ∷ 24 ∷ replicate 30 0;
}

abbrev root : Cred
root = record student {
  uid = 0;
  euid = 0;
  suid = 0;
  fsuid = 0;
  user = 0;
  cap_effective = (λ k. true);
  cap_permitted = (λ k. true);
}

abbrev plain : Env
plain = record { capable = false; alloc_uid = true; fixup = true }

abbrev able : Env
able = record { capable = true; alloc_uid = true; fixup = true }

unprivileged-KeepsUids_example :
    KeepsUids student (setuid plain 1000 student).1
    × KeepsUids student (setreuid plain 1000 7 student).1
    × KeepsUids student (setresuid plain 1000 7 0 student).1
unprivileged-KeepsUids_example = unprivileged-KeepsUids plain 1000 7 0 student refl

set_uids-atomic_example :
    (((setuid plain 0 student).0 ≡ pos 0) ⊎ ((setuid plain 0 student).1 ≡ student))
    × (((setreuid plain 0 7 student).0 ≡ pos 0) ⊎ ((setreuid plain 0 7 student).1 ≡ student))
    × (((setresuid plain 0 7 7 student).0 ≡ pos 0) ⊎ ((setresuid plain 0 7 7 student).1 ≡ student))
set_uids-atomic_example = set_uids-atomic plain 0 7 7 student

setuid-IsOrdinary_example :
    ((setuid able 1000 root).0 ≡ pos 0) × IsOrdinary (setuid able 1000 root).1
setuid-IsOrdinary_example = setuid-IsOrdinary able 1000 root refl refl refl refl refl (ground arith)

abbrev video : ℕ
video = 24

joins_short : in_group_p 24 student ≡ true
unfolding in_group_p supplemental_group_member member_from
joins_short = refl

stays_out : in_group_p 0 student ≡ false
unfolding in_group_p supplemental_group_member member_from
stays_out = refl
