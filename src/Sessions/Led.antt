-- ===== src/Sessions/Led.antt =====
-- What the calls on groups, sessions and limits guarantee.
use operation_systems.Common.{
  List, [], ◌∷◌, refl, ap, sym, ◌∙◌, ℕ, ◌⊎◌, inl, inr, Bool-cases, ◌==◌, ==_iff, ◌≡◌, ◌≢◌, ◌≤◌,
  true, false, Option, none, some, arith,
}
use operation_systems.Common.Int.{ℤ, pos, returns_zero_or, ==ℤ_refl}
use operation_systems.Sessions.Groups.{Proc, Procs, eperm, setpgid, in_use, setsid}
use operation_systems.Sessions.Limits.{Rlimit, Limits, Numbers, setrlimit}

module _ (find : ℤ → Option ℕ) (pid pgid : ℤ) (s : Procs) where
  setpgid-atomic :
      (q : ℕ) → (setpgid find pid pgid s).0 ≢ pos 0 → (setpgid find pid pgid s).1.task q ≡ s.task q
  unfolding setpgid
  setpgid-atomic q h = ground arith

  setpgid-leader :
      (q : ℕ) → (s.task q).leader ≡ true → (setpgid find pid pgid s).1.task q ≡ s.task q
  unfolding setpgid
  setpgid-leader q h = ground arith

  setpgid-stranger :
      (q : ℕ)
      → (q == s.current) ≡ false
      → ((s.task q).p_pptr == s.current) ≡ false
      → ((s.task q).p_opptr == s.current) ≡ false
      → (setpgid find pid pgid s).1.task q ≡ s.task q
  unfolding setpgid
  setpgid-stranger q n a b = ground arith

  -- `setpgid` changes a task only if it returns 0 and the task leads no session and is the caller, or
  -- one whose present or original parent is the caller.
  pub setpgid-frame :
      (q : ℕ)
      → ((setpgid find pid pgid s).1.task q ≡ s.task q)
        ⊎ (((setpgid find pid pgid s).0 ≡ pos 0)
            × ((s.task q).leader ≡ false)
            × ((q ≡ s.current)
                ⊎ (((s.task q).p_pptr ≡ s.current) ⊎ ((s.task q).p_opptr ≡ s.current))))
  setpgid-frame q =
      elim (returns_zero_or (λ s'. s'.task q ≡ s.task q) (setpgid find pid pgid s)
        (setpgid-atomic q)) [
          | inr same ↦ inl same
          | inl zero_returned ↦ elim (Bool-cases (s.task q).leader) [
            | inl leads ↦ inl (setpgid-leader q leads)
            | inr follows ↦ elim (Bool-cases (q == s.current)) [
              | inl me ↦ inr (zero_returned, follows, inl ((==_iff q s.current).0 me))
              | inr other ↦ elim (Bool-cases ((s.task q).p_pptr == s.current)) [
                | inl mine ↦ inr (zero_returned, follows, inr (inl ((==_iff _ s.current).0 mine)))
                | inr grown ↦ elim (Bool-cases ((s.task q).p_opptr == s.current)) [
                  | inl born ↦ inr (zero_returned, follows, inr (inr ((==_iff _ s.current).0 born)))
                  | inr strange ↦ inl (setpgid-stranger q other grown strange)
                ]
              ]
            ]
          ]
        ]

-- The task is one that `for_each_task` visits.
abbrev pub IsListed : ℕ → List ℕ → Type 0
IsListed p [] = ⊥
IsListed p (q ∷ tasks) = (p ≡ q) ⊎ IsListed p tasks

member-in_use :
    (task : ℕ → Proc) (pid : ℤ) (p : ℕ) (tasks : List ℕ)
    → IsListed p tasks
    → (task p).pgrp ≡ pid
    → in_use task pid tasks ≡ true
unfolding in_use
member-in_use task pid p [] l e = absurd l
member-in_use task pid p (q ∷ tasks) (inl h) e =
    rw (ap (λ n. (task n).pgrp) (sym h) ∙ e, ==ℤ_refl pid) refl
member-in_use task pid p (q ∷ tasks) (inr l) e = ground (arith, member-in_use task pid p tasks l e)

-- A task on the task list leads a session at most once: after a call of `setsid`, whether it led or was
-- refused, the next one returns EPERM and changes nothing.
pub setsid-once :
    (s : Procs) → IsListed s.current s.listed → setsid (setsid s).1 ≡ (eperm, (setsid s).1)
unfolding setsid
setsid-once s l = elim (Bool-cases (in_use s.task (s.task s.current).pid s.listed)) [
  | inl used ↦ rw (used, used) refl
  | inr free ↦ rw free (
      ground (
        arith,
        member-in_use (setsid s).1.task (s.task s.current).pid s.current s.listed l
            (ground (arith, free)),
      ))
]

-- Without CAP_SYS_RESOURCE `setrlimit` never raises the maximum of any limit.
pub setrlimit-lowers :
    (nums : Numbers) (resource : ℕ) (copy : Option Rlimit) (l : Limits) (r : ℕ)
    → ((setrlimit nums false resource copy l).1.rlim r).rlim_max ≤ (l.rlim r).rlim_max
unfolding setrlimit
setrlimit-lowers nums resource none l r = ground arith
setrlimit-lowers nums resource (some new) l r = ground arith
