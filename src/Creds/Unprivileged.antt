-- ===== src/Creds/Unprivileged.antt =====
-- What a caller without CAP_SETUID can reach.
use operation_systems.Common.{
  ℕ, ◌≡◌, refl, Bool, true, false, not, ◌&&◌, ◌||◌, ◌==◌, if◌then◌else◌, arith,
}
use operation_systems.Common.Int.{ℤ, pos}
use operation_systems.Creds.Ids.{Cred, eperm, eagain, unchanged, differs, undump_if}
use operation_systems.Creds.User.{
  Env, foreign_uid, fix_caps, change_user, set_user, cap_emulate_setxuid, setreuid, setuid,
  setresuid,
}

abbrev pub is_own_uid : Cred → ℕ → Bool
is_own_uid c id = id == c.uid || (id == c.euid || id == c.suid)

-- The new user numbers are among the old ones.
abbrev pub KeepsUids : Cred → Cred → Type 0
KeepsUids c c' =
    (is_own_uid c c'.uid ≡ true) × (is_own_uid c c'.euid ≡ true) × (is_own_uid c c'.suid ≡ true)

-- The fixup changes none of the numbers.
uid-fix_caps : (env : Env) (old c : Cred) → (fix_caps env old c).uid ≡ c.uid
unfolding cap_emulate_setxuid
uid-fix_caps env old c = ground arith

euid-fix_caps : (env : Env) (old c : Cred) → (fix_caps env old c).euid ≡ c.euid
unfolding cap_emulate_setxuid
euid-fix_caps env old c = ground arith

suid-fix_caps : (env : Env) (old c : Cred) → (fix_caps env old c).suid ≡ c.suid
unfolding cap_emulate_setxuid
suid-fix_caps env old c = ground arith

fix_caps-KeepsUids :
    (env : Env) (old c : Cred) → KeepsUids old c → KeepsUids old (fix_caps env old c)
fix_caps-KeepsUids env old c (u, e, s) =
    (rw (uid-fix_caps env old c) u, rw (euid-fix_caps env old c) e, rw (suid-fix_caps env old c) s)

uid-change_user : (id : ℕ) (dump : Bool) (c : Cred) → (change_user id dump c).uid ≡ id
unfolding set_user
uid-change_user id dump c = ground arith

-- A call that fails keeps the numbers, and a call does if both its branches do.
KeepsUids-refl : (c : Cred) → KeepsUids c c
KeepsUids-refl c = (ground arith, ground arith, ground arith)

branch-KeepsUids :
    (b : Bool) (err : ℤ) (c : Cred) (r : ℤ × Cred)
    → (b ≡ false → KeepsUids c r.1)
    → KeepsUids c (if b then (err, c) else r).1
branch-KeepsUids true err c r h = KeepsUids-refl c
branch-KeepsUids false err c r h = h refl

-- A number that is asked for and not foreign, or else an old one, is an old one.
own_choice :
    (id old : ℕ) (c : Cred)
    → is_own_uid c old ≡ true
    → foreign_uid id c ≡ false
    → is_own_uid c (if differs id unchanged then id else old) ≡ true
own_choice id old c h n = ground arith

-- Without CAP_SETUID, `setuid` leaves the three user numbers among the old ones, whatever it is
-- asked for.
setuid-KeepsUids :
    (env : Env) (uid : ℕ) (c : Cred) → env.capable ≡ false → KeepsUids c (setuid env uid c).1
unfolding setuid set_user cap_emulate_setxuid
setuid-KeepsUids env uid c h = grind arith

none_foreign :
    (able f g h : Bool)
    → able ≡ false
    → (not able && (f || g || h)) ≡ false
    → (f ≡ false) × (g ≡ false) × (h ≡ false)
none_foreign able f g h a n = (ground arith, ground arith, ground arith)

uid-choice :
    (b : Bool) (id : ℕ) (dump : Bool) (c : Cred)
    → (if b then change_user id dump c else c).uid ≡ (if b then id else c.uid)
uid-choice true id dump c = uid-change_user id dump c
uid-choice false id dump c = refl

own_uids :
    (c : Cred)
    → (is_own_uid c c.uid ≡ true) × (is_own_uid c c.euid ≡ true) × (is_own_uid c c.suid ≡ true)
own_uids c = KeepsUids-refl c

-- Without CAP_SETUID, `setresuid` leaves the three user numbers among the old ones, whatever it is
-- asked for.
setresuid-KeepsUids :
    (env : Env) (ruid euid suid : ℕ) (c : Cred)
    → env.capable ≡ false
    → KeepsUids c (setresuid env ruid euid suid c).1
unfolding setresuid
setresuid-KeepsUids env ruid euid suid c h =
    let f : Bool = foreign_uid ruid c in
    let g : Bool = foreign_uid euid c in
    let k : Bool = foreign_uid suid c in
    let new_euid : ℕ = if differs euid unchanged then euid else c.euid in
    let c' : Cred =
      if differs ruid unchanged then change_user ruid (differs euid c.euid) c else c in
    let new : Cred = record (undump_if (differs euid unchanged && differs euid c.euid) c') {
      euid = new_euid;
      fsuid = new_euid;
      suid = if differs suid unchanged then suid else c.suid;
    } in
    let full : Bool = differs ruid unchanged && differs ruid c.uid && not env.alloc_uid in
    let (own_u, own_e, own_s) = own_uids c in
    branch-KeepsUids (not env.capable && (f || g || k)) eperm c
      (if full then (eagain, c) else (pos 0, fix_caps env c new))
      (λ n.
        let (nf, ng, nk) = none_foreign env.capable f g k h n in
        branch-KeepsUids full eagain c (pos 0, fix_caps env c new)
          (λ m. fix_caps-KeepsUids env c new (
            rw (uid-choice (differs ruid unchanged) ruid (differs euid c.euid) c)
                (own_choice ruid c.uid c own_u nf),
            own_choice euid c.euid c own_e ng,
            own_choice suid c.suid c own_s nk,
          )))

own_ruid :
    (ruid : ℕ) (able : Bool) (c : Cred)
    → able ≡ false
    → (differs ruid unchanged && differs c.uid ruid && differs c.euid ruid && not able) ≡ false
    → is_own_uid c (if differs ruid unchanged then ruid else c.uid) ≡ true
own_ruid ruid able c h n = ground arith

own_euid :
    (euid : ℕ) (able : Bool) (c : Cred)
    → able ≡ false
    → (differs euid unchanged
        && differs c.uid euid
        && differs c.euid euid
        && differs c.suid euid
        && not able)
      ≡ false
    → is_own_uid c (if differs euid unchanged then euid else c.euid) ≡ true
own_euid euid able c h n = ground arith

own_either :
    (b : Bool) (x y : ℕ) (c : Cred)
    → is_own_uid c x ≡ true
    → is_own_uid c y ≡ true
    → is_own_uid c (if b then x else y) ≡ true
own_either true x y c h k = h
own_either false x y c h k = k

-- Without CAP_SETUID, `setreuid` leaves the three user numbers among the old ones, whatever it is
-- asked for.
setreuid-KeepsUids :
    (env : Env) (ruid euid : ℕ) (c : Cred)
    → env.capable ≡ false
    → KeepsUids c (setreuid env ruid euid c).1
unfolding setreuid
setreuid-KeepsUids env ruid euid c h =
    let new_ruid : ℕ = if differs ruid unchanged then ruid else c.uid in
    let new_euid : ℕ = if differs euid unchanged then euid else c.euid in
    let follows : Bool = differs ruid unchanged || (differs euid unchanged && differs euid c.uid) in
    let c' : Cred = change_user new_ruid (differs new_euid c.euid) c in
    let new : Cred = record (undump_if (differs new_euid c.euid) c') {
      fsuid = new_euid;
      euid = new_euid;
      suid = if follows then new_euid else c.suid;
    } in
    let e1 : Bool =
      differs ruid unchanged && differs c.uid ruid && differs c.euid ruid && not env.capable in
    let e2 : Bool =
      differs euid unchanged
      && differs c.uid euid
      && differs c.euid euid
      && differs c.suid euid
      && not env.capable in
    let full : Bool = differs new_ruid c.uid && not env.alloc_uid in
    let done : ℤ × Cred = (pos 0, fix_caps env c new) in
    let (own_u, own_e, own_s) = own_uids c in
    branch-KeepsUids e1 eperm c (if e2 then (eperm, c) else if full then (eagain, c) else done)
      (λ n1. branch-KeepsUids e2 eperm c (if full then (eagain, c) else done) (λ n2.
        branch-KeepsUids full eagain c done (λ m.
          let own_new : is_own_uid c new_euid ≡ true = own_euid euid env.capable c h n2 in
          fix_caps-KeepsUids env c new (
            rw (uid-change_user new_ruid (differs new_euid c.euid) c)
                (own_ruid ruid env.capable c h n1),
            own_new,
            own_either follows new_euid c.suid c own_new own_s,
          ))))

-- Without CAP_SETUID, `setuid`, `setreuid` and `setresuid` leave the three user numbers among the old
-- ones, whatever they are asked for.
pub unprivileged-KeepsUids :
    (env : Env) (ruid euid suid : ℕ) (c : Cred)
    → env.capable ≡ false
    → KeepsUids c (setuid env ruid c).1
      × KeepsUids c (setreuid env ruid euid c).1
      × KeepsUids c (setresuid env ruid euid suid c).1
unprivileged-KeepsUids env ruid euid suid c h = (
  setuid-KeepsUids env ruid c h,
  setreuid-KeepsUids env ruid euid c h,
  setresuid-KeepsUids env ruid euid suid c h,
)
