-- ===== src/Queue/Reached.antt =====
-- What the calls on the queue guarantee, in every state that any number of threads reach in any order.
use operation_systems.Common.{
  ℕ, ◌≡◌, ◌∙◌, ap, sym, refl, true, false, none, some, List, [], ◌∷◌, ◌++◌,
}
use mathlib.Core.Path.{subst}
use mathlib.Core.List.{append_assoc}
use operation_systems.Common.Int.{pos, ◌+ℤ◌}
use operation_systems.Queue.Monitor.{
  Alone, at_rest, and_then, away, read_test, read_asleep, reading, took, System, init, empty, put,
  take_lock, test_read, take_front, pop_item, consumers_unlock, Step, lock_to_push, test_to_push,
  relock_to_push, push, pushed_out, lock_to_pop, test_to_pop, relock_to_pop, pop, popped_out, woken,
  Reach, start, later,
}
use operation_systems.Queue.Threads.{holds, held_up, asleep, put_self}
use operation_systems.Queue.Kept.{
  Kept, IsKept, at_holder, at_none, enter_write-Kept, take_lock-Kept, test_write-Kept,
  push_item-Kept, producers_unlock-Kept,
}
use operation_systems.Queue.Popped.{
  consumers_unlock-Kept, test_read-Kept, pop_item-Kept, woken-Kept,
}

not_held_up : true ≡ false → ⊥
not_held_up e = cc

module _ {ℓ} {A : Type ℓ} where
  init-Kept : Kept (init {A = A}) away
  init-Kept = record {
    threads = record {
      of_holder = λ t e. absurd cc;
      to_holder = λ t e. absurd cc;
      unheld = λ t. refl;
    };
    now = λ t e. refl;
    free = λ e. refl;
    writers_now = refl;
    readers_now = refl;
    queued_now = refl;
    awake = λ t e l. refl;
    full = λ e. absurd cc;
    in_order = refl;
  }

  Step-Kept : {s s' : System A} → IsKept s → Step s s' → IsKept s'
  unfolding pop_item
  Step-Kept {s} k (lock_to_push t x e f) = (_, enter_write-Kept s t x (at_none k f) f)
  Step-Kept {s} k (test_to_push t x e f) = (_, test_write-Kept s t x (at_holder k e f) f)
  Step-Kept {s} (p, k) (relock_to_push t x e f) =
      absurd (not_held_up (ap held_up (sym e) ∙ k.threads.unheld t))
  Step-Kept {s} k (push t x e f) = (_, push_item-Kept s t x (at_holder k e f) f)
  Step-Kept {s} k (pushed_out t w e f) = (_, producers_unlock-Kept s t w (at_holder k e f) f)
  Step-Kept {s} k (lock_to_pop t e f) =
      (_, take_lock-Kept s t read_test (at_none k f) f refl refl refl refl refl refl refl)
  Step-Kept {s} k (test_to_pop t e f) = test_read-Kept s t (at_holder k e f) f
  Step-Kept {s} k (relock_to_pop t e f) =
      (_, take_lock-Kept s t read_test (at_none k f) f refl refl refl refl refl refl refl)
  Step-Kept {s} k (pop t e f g) = pop_item-Kept s t (at_holder k e f) f s.items refl g
  Step-Kept {s} k (popped_out t x w e f) = (_, consumers_unlock-Kept s t x w (at_holder k e f) f)
  Step-Kept {s} k (woken t) = woken-Kept s t k

  Reach-Kept : {s s' : System A} → IsKept s → Reach s s' → IsKept s'
  Reach-Kept k start = k
  Reach-Kept k (later r m) = Step-Kept (Reach-Kept k r) m

  from_init : {s : System A} → Reach init s → IsKept s
  from_init r = Reach-Kept (away, init-Kept) r

  -- In every state the threads reach, at most one thread is between taking the lock and letting go of it,
  -- and none of them has been put to sleep in `push`.
  pub one_inside :
      {s : System A}
      → Reach init s
      → ((t u : ℕ) → holds (s.at t) ≡ true → holds (s.at u) ≡ true → t ≡ u)
        × ((t : ℕ) → held_up (s.at t) ≡ false)
  one_inside {s} r =
      let (p, k) = from_init r in
      (
        λ t u e f. some-inj (sym (k.threads.to_holder t e) ∙ k.threads.to_holder u f),
        k.threads.unheld,
      )
    where
      some-inj : {a b : ℕ} → some a ≡ some b → a ≡ b
      some-inj e = cc

  -- No wakeup is lost: in every state the threads reach in which the lock is free, a thread asleep in
  -- `pop` means that the queue is empty.
  pub asleep-empty :
      {s : System A}
      → Reach init s
      → s.holder ≡ none
      → (t : ℕ) → s.at t ≡ read_asleep
      → s.items ≡ []
  asleep-empty {s} r f t e = (at_none (from_init r) f).awake t (ap asleep e) refl

  -- In every state the threads reach, a thread that `consumers_lock` has let through to the access is
  -- the only one between taking the lock and letting go of it. The queue is not empty, so that `pop`
  -- takes its front item; what has been taken out, followed by what is left, is what has been put in, in
  -- order.
  pub pop_item-safe :
      {s : System A}
      → Reach init s
      → (t u : ℕ) → s.at t ≡ reading
      → holds (s.at u) ≡ true
      → (u ≡ t)
        × ((x : A) × (xs : List A) × (s' : System A) × (s.items ≡ x ∷ xs)
            × (pop_item t s ≡ some s')
            × (s'.items ≡ xs)
            × (s'.at t ≡ took x)
            × (s'.popped ≡ s.popped ++ x ∷ [])
            × (s'.pushed ≡ s'.popped ++ s'.items))
  unfolding pop_item
  pop_item-safe {s} r t u e held =
      let (p, k) = from_init r in
      let mine = k.threads.to_holder t (ap holds e) in
      ((one_inside r).0 u t held (ap holds e), front s.items refl (at_holder (p, k) e mine))
    where
      front :
          (l : List A)
          → s.items ≡ l
          → Kept s reading
          → (x : A) × (xs : List A) × (s' : System A) × (s.items ≡ x ∷ xs)
            × (take_front t s s.items ≡ some s')
            × (s'.items ≡ xs)
            × (s'.at t ≡ took x)
            × (s'.popped ≡ s.popped ++ x ∷ [])
            × (s'.pushed ≡ s'.popped ++ s'.items)
      front [] f k = absurd (no_item (sym (ap empty f) ∙ k.full refl))
        where
          no_item : true ≡ false → ⊥
          no_item g = cc
      front (x ∷ xs) f k = (
        x,
        xs,
        _,
        f,
        ap (take_front t s) f,
        refl,
        put_self t (took x) s.at,
        refl,
        k.in_order ∙ ap (λ l. s.popped ++ l) f ∙ sym (append_assoc s.popped (x ∷ []) xs),
      )

  goes_in :
      (t : ℕ) (s : System A)
      → Kept s read_test
      → empty s.items ≡ false
      → test_read t s
        ≡ record s { consumers_inside = s.consumers_inside +ℤ pos 1; at = put t reading s.at }
  goes_in t s k some_item = rw (k.writers_now, k.queued_now, some_item, k.readers_now) refl

  -- From every state the threads reach in which the lock is free and the queue is not empty, a thread that
  -- calls `pop` gets through the call by steps that are all its own: it takes the front item and lets go of
  -- the lock.
  pub pop-runs :
      {s : System A}
      → Reach init s
      → s.holder ≡ none
      → (t : ℕ) → s.at t ≡ away
      → (x : A) (xs : List A) → s.items ≡ x ∷ xs
      → (s' : System A) × Alone t s s'
        × (s'.at t ≡ away)
        × (s'.holder ≡ none)
        × (s'.items ≡ xs)
        × (s'.popped ≡ s.popped ++ x ∷ [])
  unfolding pop_item
  pop-runs {s} r unlocked t e x xs f =
      let k = at_none (from_init r) unlocked in
      let s1 = take_lock t read_test s in
      let s2 = record s1 {
        consumers_inside = s1.consumers_inside +ℤ pos 1;
        at = put t reading s1.at;
      } in
      let s3 = record s2 { items = xs; popped = s2.popped ++ x ∷ []; at = put t (took x) s2.at } in
      let k1 = take_lock-Kept s t read_test k unlocked refl refl refl refl refl refl refl in
      let into : Alone t s s2 = subst (Alone t s) (goes_in t s1 k1 (ap empty f)) (
        and_then (and_then at_rest (lock_to_pop t e unlocked) refl)
          (test_to_pop t (put_self t read_test s.at) refl) refl) in
      let taken : Step s2 s3 = pop t (put_self t reading s1.at) refl (ap (take_front t s2) f) in
      (
        consumers_unlock t none s3,
        and_then (and_then into taken refl) (popped_out t x none (put_self t (took x) s2.at) refl)
            refl,
        put_self t away _,
        refl,
        refl,
        refl,
      )
