-- ===== src/Sched/Reniced.antt =====
-- What `sys_setpriority` keeps and what `sys_getpriority` reports.
use operation_systems.Common.{
  ℕ, zero, suc, ◌∙◌, ap, not, some, get_elem?, ◌≡◌, ◌≤◌, Bool, true, false, ◌||◌, ◌&&◌, List, [],
  ◌∷◌, ◌==◌, if◌then◌else◌, arith,
}
use mathlib.Core.Path.{subst}
use operation_systems.Common.Int.{ℤ, pos, ltb_ℤ, ◌==ℤ◌, ◌≤ℤ◌, ◌-ℤ◌}
use operation_systems.Sched.Task.{Task, is_short}
use operation_systems.Sched.Queue.{Rq}
use operation_systems.Sched.Nice.{set_user_nice, clamp_ℤ, lowest_nice, highest_nice, task_nice}
use operation_systems.Sched.Policies.{esrch, eperm, einval}
use operation_systems.Sched.Setprio.{
  Ident, eacces, proc_sel, renice_one, renice_all, setpriority, best_of, getpriority,
}
use operation_systems.Sched.Invariant.{IsValid}
use operation_systems.Sched.Preserved.{set_user_nice-IsValid}

-- A branch on a test keeps the state valid if both sides do.
branch-IsValid :
    (b : Bool) (x y : ℤ × Rq) → IsValid x.1 → IsValid y.1 → IsValid (if b then x else y).1
branch-IsValid true x y v w = v
branch-IsValid false x y v w = w

renice_one-IsValid :
    (capable : Bool) (nice : ℤ) (p : ℕ) (acc : ℤ × Rq)
    → IsValid acc.1
    → IsValid (renice_one capable nice p acc).1
unfolding renice_one
renice_one-IsValid capable nice p (error, rq) v =
    let t : Task = rq.task p in
    let me : Task = rq.task rq.curr in
    let done : ℤ × Rq = (
      (if is_short t.policy then eperm else (if error ==ℤ esrch then pos 0 else error)),
      set_user_nice p nice rq,
    ) in
    let lower : Bool = ltb_ℤ nice (task_nice t) && not capable in
    branch-IsValid (not (t.uid == me.euid) && not (t.uid == me.uid) && not capable) (eperm, rq)
      (if lower then (eacces, rq) else done) v
      (branch-IsValid lower (eacces, rq) done v (set_user_nice-IsValid p nice rq v))

module _ (ident : ℕ → Ident) (capable : Bool) (which who nice : ℤ) where
  renice_all-IsValid :
      (tasks : List ℕ) (acc : ℤ × Rq)
      → IsValid acc.1
      → IsValid (renice_all ident capable which who nice tasks acc).1
  unfolding renice_all
  renice_all-IsValid [] acc v = v
  renice_all-IsValid (p ∷ tasks) acc v =
      renice_all-IsValid tasks
        (if proc_sel ident acc.1 p which who then renice_one capable nice p acc else acc)
        (branch-IsValid (proc_sel ident acc.1 p which who) (renice_one capable nice p acc) acc
          (renice_one-IsValid capable nice p acc v) v)

-- `sys_setpriority` keeps the run queue valid, whichever tasks it selects.
pub setpriority-IsValid :
    (ident : ℕ → Ident) (capable : Bool) (tasks : List ℕ) (which who niceval : ℤ) (rq : Rq)
    → IsValid rq
    → IsValid (setpriority ident capable tasks which who niceval rq).1
unfolding setpriority
setpriority-IsValid ident capable tasks which who niceval rq v =
    branch-IsValid (ltb_ℤ (pos 2) which || ltb_ℤ which (pos 0)) (einval, rq)
      (renice_all ident capable which who (clamp_ℤ lowest_nice highest_nice niceval) tasks
        (esrch, rq))
      v
      (renice_all-IsValid ident capable which who (clamp_ℤ lowest_nice highest_nice niceval) tasks
        (esrch, rq) v)

≤ℤ_trans : (a b c : ℤ) → a ≤ℤ b → b ≤ℤ c → a ≤ℤ c
≤ℤ_trans a b c h k = omega arith

-- A round of the loop keeps what it had, and takes what is selected.
round-ge :
    (c : Bool) (had n : ℤ)
    → (had ≤ℤ (if c && ltb_ℤ had n then n else had))
      × (c ≡ true → n ≤ℤ (if c && ltb_ℤ had n then n else had))
round-ge true had n = (ground arith, λ h. ground arith)
round-ge false had n = (ground arith, λ h. absurd cc)

module _ (ident : ℕ → Ident) (rq : Rq) (which who : ℤ) where
  abbrev after : ℕ → ℤ → ℤ
  after p had =
      let niceval : ℤ = pos 20 -ℤ task_nice (rq.task p) in
      if proc_sel ident rq p which who && ltb_ℤ had niceval then niceval else had

  -- What the loop has found so far only grows.
  best_of-ge : (tasks : List ℕ) (had : ℤ) → had ≤ℤ best_of ident rq which who tasks had
  unfolding best_of
  best_of-ge [] had = omega arith
  best_of-ge (p ∷ tasks) had =
      ≤ℤ_trans had (after p had) (best_of ident rq which who tasks (after p had))
        (round-ge (proc_sel ident rq p which who) had (pos 20 -ℤ task_nice (rq.task p))).0
        (best_of-ge tasks (after p had))

  best_of-selected :
      (tasks : List ℕ) (had : ℤ) (i : ℕ) {p : ℕ}
      → get_elem? tasks i ≡ some p
      → proc_sel ident rq p which who ≡ true
      → (pos 20 -ℤ task_nice (rq.task p)) ≤ℤ best_of ident rq which who tasks had
  unfolding best_of
  best_of-selected [] had i e sel = absurd cc
  best_of-selected (q ∷ tasks) had zero {p} e sel =
      let q≡p : q ≡ p = cc in
      let n : ℤ = pos 20 -ℤ task_nice (rq.task q) in
      let goal : n ≤ℤ best_of ident rq which who tasks (after q had) =
        ≤ℤ_trans n (after q had) (best_of ident rq which who tasks (after q had))
          ((round-ge (proc_sel ident rq q which who) had n).1
            (ap (λ x. proc_sel ident rq x which who) q≡p ∙ sel))
          (best_of-ge tasks (after q had)) in
      subst
        (λ x. (pos 20 -ℤ task_nice (rq.task x)) ≤ℤ best_of ident rq which who tasks (after q had))
        q≡p goal
  best_of-selected (q ∷ tasks) had (suc i) e sel = best_of-selected tasks (after q had) i e sel

-- For a `which` in range, `sys_getpriority` reports at least 20 - nice for each task that `which`
-- and `who` select.
pub getpriority-ge :
    (ident : ℕ → Ident) (tasks : List ℕ) (n : ℕ) (who : ℤ) (rq : Rq) (i p : ℕ)
    → n ≤ 2
    → get_elem? tasks i ≡ some p
    → proc_sel ident rq p (pos n) who ≡ true
    → (pos 20 -ℤ task_nice (rq.task p)) ≤ℤ getpriority ident tasks (pos n) who rq
unfolding getpriority
getpriority-ge ident tasks n who rq i p range e sel =
    let h : (ltb_ℤ (pos 2) (pos n) || ltb_ℤ (pos n) (pos 0)) ≡ false = ground arith in
    rw h (best_of-selected ident rq (pos n) who tasks esrch i e sel)
