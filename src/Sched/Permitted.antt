-- ===== src/Sched/Permitted.antt =====
-- Who may change a policy to what, and what `setscheduler` leaves behind.
use operation_systems.Common.{
  ℕ, ◌<◌, ◌≡◌, ◌≢◌, refl, inl, inr, Bool, true, false, Bool-cases, Option, some, none, ◌||◌, arith,
}
use operation_systems.Common.Int.{ℤ, pos, pos_part, ltb_ℤ, ◌==ℤ◌}
use operation_systems.Sched.Task.{Task, Policy, other, fifo, rr, short, is_short, queue_index}
use operation_systems.Sched.Queue.{Rq, put_task, resched_task, dequeue_task}
use operation_systems.Sched.Wake.{deactivate_task, is_other}
use operation_systems.Sched.Policies.{
  SchedParam, decode_policy, check_param, check_short, with_policy, move_policy, change_policy,
  finish, with_decoded, with_checked, set_policy, with_copy, setscheduler,
}
use operation_systems.Sched.Invariant.{
  IsTask, IsValid, put_task-IsValidBut, IsValid-IsValidBut, IsValidBut-IsValid,
  resched_task-IsValid,
}
use operation_systems.Sched.Preserved.{activate_task-IsValid, deactivate_task-IsValid, if-IsValid}

-- A `setscheduler` that does not return 0 changes nothing at all.
pub setscheduler-atomic :
    (hz jiffies : ℕ) (find : ℤ → Option ℕ) (capable param_null : Bool) (pid policy : ℤ)
    (copy : Option SchedParam) (rq : Rq)
    → (setscheduler hz jiffies find capable param_null pid policy copy rq).0 ≢ pos 0
    → (setscheduler hz jiffies find capable param_null pid policy copy rq).1 ≡ rq
unfolding setscheduler set_policy
setscheduler-atomic hz jiffies find capable param_null pid policy none rq h = ground arith
setscheduler-atomic hz jiffies find capable param_null pid policy (some lp) rq h = ground arith

-- Every `setscheduler` for a short task fails and changes nothing.
pub setscheduler-short_task :
    (hz jiffies : ℕ) (find : ℤ → Option ℕ) (capable param_null : Bool) (pid policy : ℤ)
    (copy : Option SchedParam) (rq : Rq) (p : ℕ)
    → find pid ≡ some p
    → is_short (rq.task p).policy ≡ true
    → ((setscheduler hz jiffies find capable param_null pid policy copy rq).0 ≢ pos 0)
      × ((setscheduler hz jiffies find capable param_null pid policy copy rq).1 ≡ rq)
unfolding setscheduler set_policy check_short
setscheduler-short_task hz jiffies find capable param_null pid policy copy rq p f h = ground arith

module _ (hz jiffies : ℕ) where
  with_policy-IsTask :
      {b : Bool} (policy : Policy) (lp : SchedParam) (t : Task)
      → IsTask b t
      → (is_short policy ≡ true → pos_part lp.sched_short_prio < 140)
      → IsTask b (with_policy hz jiffies policy lp t)
  with_policy-IsTask other lp t h low = ground arith
  with_policy-IsTask fifo lp t h low = ground arith
  with_policy-IsTask rr lp t h low = ground arith
  with_policy-IsTask short lp t h low = ground (arith, low refl)

  with_policy-lt :
      {b : Bool} (policy : Policy) (lp : SchedParam) (t : Task)
      → IsTask b t
      → (is_short policy ≡ true → pos_part lp.sched_short_prio < 140)
      → queue_index (with_policy hz jiffies policy lp t) < 140
  with_policy-lt other lp t h low = ground arith
  with_policy-lt fifo lp t h low = ground arith
  with_policy-lt rr lp t h low = ground arith
  with_policy-lt short lp t h low = ground (arith, low refl)

  array-with_policy :
      (policy : Policy) (lp : SchedParam) (t : Task)
      → (with_policy hz jiffies policy lp t).array ≡ t.array
  array-with_policy other lp t = refl
  array-with_policy fifo lp t = refl
  array-with_policy rr lp t = refl
  array-with_policy short lp t = refl

  move_policy-IsValid :
      (p : ℕ) (policy : Policy) (lp : SchedParam) (rq : Rq) (a : Option ℕ)
      → IsValid rq
      → (rq.task p).array ≡ a
      → (is_short policy ≡ true → pos_part lp.sched_short_prio < 140)
      → IsValid (move_policy hz jiffies p policy lp rq a)
  unfolding deactivate_task dequeue_task
  move_policy-IsValid p policy lp rq none v at low =
      let t : Task = with_policy hz jiffies policy lp (rq.task p) in
      IsValidBut-IsValid p (put_task p t rq)
        (put_task-IsValidBut p t rq (IsValid-IsValidBut p rq v at)
          (with_policy-IsTask policy lp (rq.task p) (v.bounds p) low))
        (ground (arith, at, array-with_policy policy lp (rq.task p)))
  move_policy-IsValid p policy lp rq (some i) v at low =
      let out : Rq = deactivate_task p i rq in
      let ok : IsValid out = deactivate_task-IsValid p i rq v at in
      let t : Task = with_policy hz jiffies policy lp (out.task p) in
      activate_task-IsValid hz jiffies p (put_task p t out)
        (put_task-IsValidBut p t out (IsValid-IsValidBut p out ok (ground arith))
          (with_policy-IsTask policy lp (out.task p) (ok.bounds p) low))
        (ground (arith, with_policy-lt policy lp (out.task p) (ok.bounds p) low))

  change_policy-IsValid :
      (p : ℕ) (policy : Policy) (lp : SchedParam) (rq : Rq)
      → IsValid rq
      → (is_short policy ≡ true → pos_part lp.sched_short_prio < 140)
      → IsValid (change_policy hz jiffies p policy lp rq)
  unfolding change_policy
  change_policy-IsValid p policy lp rq v low =
      let rq' : Rq = move_policy hz jiffies p policy lp rq (rq.task p).array in
      let ok : IsValid rq' = move_policy-IsValid p policy lp rq (rq.task p).array v refl low in
      if-IsValid (is_short policy) (resched_task rq'.curr rq') rq'
        (λ e. resched_task-IsValid rq'.curr rq' ok) (λ e. ok)

  finish-IsValid :
      (p : ℕ) (policy : Policy) (lp : SchedParam) (rq : Rq) (e : Option ℤ)
      → IsValid rq
      → (is_short policy ≡ true → pos_part lp.sched_short_prio < 140)
      → IsValid (finish hz jiffies p policy lp rq e).1
  finish-IsValid p policy lp rq none v low = change_policy-IsValid p policy lp rq v low
  finish-IsValid p policy lp rq (some e) v low = v

-- Only the number 5 is decoded to SCHED_SHORT, but for a task that has it.
decode_short :
    (current : Policy) (n : ℤ) (policy : Policy)
    → decode_policy current n ≡ some policy
    → is_short policy ≡ true
    → is_short current ≡ false
    → (n ==ℤ pos 5) ≡ true
decode_short current n policy d s c = elim (Bool-cases (n ==ℤ pos 5)) [
  | inl e ↦ e
  | inr e ↦ ground (arith, d, s, c, e)
]

-- What the first checks let through.
checked :
    (t : Task) (n : ℤ) (lp : SchedParam)
    → check_short t n lp ≡ none
    → (is_short t.policy ≡ false)
      × ((n ==ℤ pos 5) ≡ true → (pos_part lp.sched_short_prio < 140) × (is_other t.policy ≡ true))
unfolding check_short
checked t n lp c = ground arith

set_policy-IsValid :
    (hz jiffies : ℕ) (capable : Bool) (n : ℤ) (lp : SchedParam) (rq : Rq) (p : ℕ) (c : Option ℤ)
    → IsValid rq
    → check_short (rq.task p) n lp ≡ c
    → IsValid (with_checked hz jiffies capable p n lp rq c).1
set_policy-IsValid hz jiffies capable n lp rq p (some e) v h = v
set_policy-IsValid hz jiffies capable n lp rq p none v h =
    decoded (decode_policy (rq.task p).policy n) refl
  where
    decoded :
        (d : Option Policy)
        → decode_policy (rq.task p).policy n ≡ d
        → IsValid (with_decoded hz jiffies capable p lp rq d).1
    decoded none e = v
    decoded (some policy) e =
        finish-IsValid hz jiffies p policy lp rq
          (check_param capable (rq.task rq.curr) (rq.task p) policy lp) v
          (λ s.
            ((checked (rq.task p) n lp h).1
              (decode_short (rq.task p).policy n policy e s (checked (rq.task p) n lp h).0)).0)

found-IsValid :
    (hz jiffies : ℕ) (capable : Bool) (n : ℤ) (lp : SchedParam) (rq : Rq) (found : Option ℕ)
    → IsValid rq
    → IsValid (set_policy hz jiffies capable n lp rq found).1
unfolding set_policy
found-IsValid hz jiffies capable n lp rq none v = v
found-IsValid hz jiffies capable n lp rq (some p) v =
    set_policy-IsValid hz jiffies capable n lp rq p (check_short (rq.task p) n lp) v refl

copied-IsValid :
    (hz jiffies : ℕ) (capable : Bool) (n : ℤ) (copy : Option SchedParam) (rq : Rq)
    (found : Option ℕ)
    → IsValid rq
    → IsValid (with_copy hz jiffies capable n rq found copy).1
copied-IsValid hz jiffies capable n none rq found v = v
copied-IsValid hz jiffies capable n (some lp) rq found v =
    found-IsValid hz jiffies capable n lp rq found v

-- `setscheduler` keeps the run queue valid, for any task, policy number and parameters.
pub setscheduler-IsValid :
    (hz jiffies : ℕ) (find : ℤ → Option ℕ) (capable param_null : Bool) (pid policy : ℤ)
    (copy : Option SchedParam) (rq : Rq)
    → IsValid rq
    → IsValid (setscheduler hz jiffies find capable param_null pid policy copy rq).1
unfolding setscheduler
setscheduler-IsValid hz jiffies find capable param_null pid policy copy rq v =
    elim (Bool-cases (param_null || ltb_ℤ pid (pos 0))) [
      | inl bad ↦ rw bad v
      | inr good ↦ rw good (copied-IsValid hz jiffies capable policy copy rq (find pid) v)
    ]
