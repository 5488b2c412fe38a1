-- ===== src/Sched/Yielded.antt =====
-- `sched_yield` keeps the run queue valid.
use operation_systems.Common.{
  ℕ, ◌≤◌, ◌<◌, ◌≡◌, ◌⊎◌, inl, inr, ◌∙◌, refl, ap, true, false, ◌||◌, not, Bool, some, none, List,
  [], ◌∷◌, ◌++◌, arith, if◌then◌else◌, length-append, if-all,
}
use mathlib.Core.Path.{subst}
use operation_systems.Sched.Task.{Task, queue_index, rt_task, is_short}
use operation_systems.Sched.Queue.{update, PrioArray, Rq, is_empty, unlink, remove_from, put_array}
use operation_systems.Sched.Consistent.{
  occurs, IsConsistent, occurs-append, is_empty-append, total-unlink, once_in,
  remove_from-IsConsistent,
}
use operation_systems.Sched.Invariant.{
  IsValid, location, IsConsistent-ext, update-IsTask, queued-lt,
}
use operation_systems.Sched.Inserted.{IsWith, insert-IsConsistent}
use operation_systems.Sched.Picked.{IsFirstBit}
use operation_systems.Sched.Yield.{
  after_first, unlink_from, put_queue, next_prio, yield_alone, yield_at, yield_in, sched_yield,
}

append-IsWith : (p : ℕ) (qs : List ℕ) → IsWith p qs (qs ++ p ∷ [])
append-IsWith p qs = record {
  occurs_once_more = λ q. ground (arith, occurs-append q qs (p ∷ []));
  longer = omega (arith, length-append {0} qs (p ∷ []));
  in_use = is_empty-append qs p;
}

after_first-IsWith : (p : ℕ) (qs : List ℕ) → IsWith p qs (after_first p qs)
after_first-IsWith p [] = record {
  occurs_once_more = λ q. ground arith;
  longer = refl;
  in_use = refl;
}
after_first-IsWith p (q ∷ qs) = record {
  occurs_once_more = λ r. ground arith;
  longer = refl;
  in_use = refl;
}

some-is_empty : (p : ℕ) (qs : List ℕ) → occurs p qs ≡ 1 → is_empty qs ≡ false
some-is_empty p [] e = absurd (omega (arith, e))
some-is_empty p (q ∷ qs) e = refl

module _ (rq : Rq) (v : IsValid rq) (p i : ℕ) (at : (rq.task p).array ≡ some i) where
  k : ℕ
  k = queue_index (rq.task p)

  stands : location (rq.task p) ≡ some (i, k)
  unfolding k
  stands = rw at

  bit_set : (rq.arrays i).bitmap k ≡ true
  bit_set = ground (
    arith,
    v.linked.bits i k (v.linked.ranged p i k stands),
    some-is_empty p ((rq.arrays i).queue k) (once_in v.linked p i k stands k ∙ ground arith),
  )

  some_active : 1 ≤ (rq.arrays i).nr_active
  some_active = ground (
    arith,
    v.linked.counted i,
    v.linked.ranged p i k stands,
    total-unlink p k (rq.arrays i).queue (once_in v.linked p i k stands) 140,
  )

  -- The array with the task put into the queue `k'`.
  relinked :
      (k' : ℕ) (ps : List ℕ) (a : PrioArray)
      → k' < 140
      → IsWith p (unlink p ((rq.arrays i).queue k')) ps
      → ((j : ℕ) → a.queue j ≡ update (λ j. unlink p ((rq.arrays i).queue j)) k' ps j)
      → ((j : ℕ) → j < 140 → a.bitmap j ≡ update (remove_from p k (rq.arrays i)).bitmap k' true j)
      → a.nr_active ≡ (rq.arrays i).nr_active
      → IsConsistent
          (update rq.arrays i a)
          (update (update (λ q. location (rq.task q)) p none) p (some (i, k')))
  relinked k' ps a h w queues bits same =
      insert-IsConsistent rq.arrays _ p i k' (remove_from p k (rq.arrays i)) a ps
        (remove_from-IsConsistent v.linked p i k stands) (ground arith) h w queues bits
        (omega (arith, same, some_active))

  -- Within its own queue the task may stand anywhere.
  stay-IsValid :
      (k' : ℕ) (ps : List ℕ)
      → k ≡ k'
      → IsWith p (unlink p ((rq.arrays i).queue k')) ps
      → IsValid (put_array i (put_queue k' ps (unlink_from p (rq.arrays i))) rq)
  unfolding k
  stay-IsValid k' ps same w =
      let small : k' < 140 = subst (λ n. n < 140) same (queued-lt p i rq v at) in
      let set : (rq.arrays i).bitmap k' ≡ true =
        subst (λ n. (rq.arrays i).bitmap n ≡ true) same bit_set in
      record {
        linked =
            IsConsistent-ext
              (relinked k' ps (put_queue k' ps (unlink_from p (rq.arrays i))) small w (λ j. refl)
                (λ j _. ground (arith, set, same)) refl)
              (λ q. ground (arith, stands, same));
        bounds = v.bounds;
        sided = v.sided;
        active_apart = v.active_apart;
        expired_apart = v.expired_apart;
      }

  alone-IsValid :
      (find_first_bit : (ℕ → Bool) → ℕ)
      → IsFirstBit find_first_bit
      → is_short (rq.task p).policy ≡ false
      → is_empty (unlink p ((rq.arrays i).queue (rq.task p).prio)) ≡ true
      → IsValid (yield_alone find_first_bit p i (unlink_from p (rq.arrays i)) rq)
  unfolding k
  alone-IsValid find_first_bit laws plain alone =
      let t : Task = rq.task p in
      let rest : PrioArray = unlink_from p (rq.arrays i) in
      let k' : ℕ = next_prio find_first_bit t.prio rest.bitmap in
      let small : k' < 140 =
        ground
          (arith, laws.bounded (update rest.bitmap t.prio false), queued-lt p i rq v at, plain) in
      record {
        linked =
            IsConsistent-ext
              (relinked k' (after_first p (rest.queue k')) _ small
                (after_first-IsWith p (rest.queue k')) (λ j. refl)
                (λ j _. ground (arith, plain, alone)) refl)
              (λ q. ground (arith, at, plain));
        bounds =
            update-IsTask rq.task rq.idle p (record t { prio = k' }) v.bounds
              (ground (arith, v.bounds p, small));
        sided = λ q j e. ground (arith, v.sided q j, v.sided p j, e);
        active_apart = v.active_apart;
        expired_apart = v.expired_apart;
      }

-- What `sched_yield` is to leave of a current task that stands in the array `i`.
abbrev pub Yielded : ℕ → Rq → Rq → Type 0
Yielded i rq rq' =
    let p = rq.curr in
    let t : Task = rq.task p in
    IsValid rq'
    × (((rt_task t || is_short t.policy) ≡ false)
        ⊎ ((rq'.arrays i).queue (queue_index t)
            ≡ unlink p ((rq.arrays i).queue (queue_index t)) ++ p ∷ []))

-- On a valid run queue, where the current task stands in an array, `sched_yield` gets to its call of
-- `schedule` with a valid run queue, and a realtime or short task is last in its queue there.
pub sched_yield-Yielded :
    (find_first_bit : (ℕ → Bool) → ℕ) (rq : Rq) (i : ℕ)
    → IsFirstBit find_first_bit
    → IsValid rq
    → (rq.task rq.curr).array ≡ some i
    → (rq' : Rq) × (sched_yield find_first_bit rq ≡ some rq') × Yielded i rq rq'
unfolding sched_yield yield_in k
sched_yield-Yielded find_first_bit rq i laws v at =
    let p = rq.curr in
    let t : Task = rq.task p in
    let rest : PrioArray = unlink_from p (rq.arrays i) in
    let last : ℕ → Rq = λ j. put_array i (put_queue j (rest.queue j ++ p ∷ []) rest) rq in
    let second : Rq = put_array i (put_queue t.prio (after_first p (rest.queue t.prio)) rest) rq in
    let alone : Rq = yield_alone find_first_bit p i rest rq in
    let other : Rq = if not (is_empty (rest.queue t.prio)) then second else alone in
    let in_last : (j : ℕ) → k rq v p i at ≡ j → IsValid (last j) = λ j e.
      stay-IsValid rq v p i at j (rest.queue j ++ p ∷ []) e (append-IsWith p (rest.queue j)) in
    (
      yield_in find_first_bit i rq,
      ap (λ a. yield_at find_first_bit a rq) at,
      if-all (Yielded i rq) (rt_task t) (last t.prio)
          (if is_short t.policy then last t.short_prio else other)
          (λ rt. (in_last t.prio (ground (arith, rt)), inr (ground (arith, rt))))
          (λ not_rt.
            if-all (Yielded i rq) (is_short t.policy) (last t.short_prio) other
              (λ short. (in_last t.short_prio (ground (arith, short)), inr (ground (arith, short))))
              (λ plain.
                if-all (Yielded i rq) (not (is_empty (rest.queue t.prio))) second alone
                  (λ full. (
                    stay-IsValid rq v p i at t.prio (after_first p (rest.queue t.prio))
                        (ground (arith, plain)) (after_first-IsWith p (rest.queue t.prio)),
                    inl (ground (arith, not_rt, plain)),
                  ))
                  (λ empty. (
                    alone-IsValid rq v p i at find_first_bit laws plain (ground (arith, empty)),
                    inl (ground (arith, not_rt, plain)),
                  )))),
    )
