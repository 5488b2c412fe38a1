-- ===== src/Queue/Monitor.antt =====
-- `push` and `pop` of HW3/PCQueue.hpp, cut where another thread can come in between: at the lock, at the
-- tests of the while loops and at the accesses to the queue. A pthread mutex is taken by one thread at a time;
-- pthread_cond_wait lets go of it, sleeps, and takes it again once woken, which may be for no reason.
use operation_systems.Common.{
  ℕ, ◌≡◌, Bool, true, false, ◌||◌, Option, none, some, List, [], ◌∷◌, ◌++◌, ◌==◌, if◌then◌else◌,
  not,
}
use operation_systems.Common.Int.{ℤ, pos, ◌+ℤ◌, ◌-ℤ◌, ltb_ℤ, ◌==ℤ◌}

-- Where a thread stands: outside of the calls, at a while loop, asleep or woken inside of it, before the
-- access to `items`, and before the unlock.
pub data Place {ℓ} (A : Type ℓ) : Type ℓ where
  away : Place A
  write_test : A → Place A
  write_asleep : A → Place A
  write_woken : A → Place A
  writing : A → Place A
  written : Place A
  read_test : Place A
  read_asleep : Place A
  read_woken : Place A
  reading : Place A
  took : A → Place A

-- The fields of the queue, the holder of `global_lock` and the places of the threads. `pushed` and `popped`
-- record what the calls have put in and taken out.
pub record System {ℓ} (A : Type ℓ) : Type ℓ where
  pub items : List A
  pub consumers_inside : ℤ
  pub producers_inside : ℤ
  pub producers_waiting : ℤ
  pub holder : Option ℕ
  pub at : ℕ → Place A
  pub pushed : List A
  pub popped : List A

module _ {ℓ} {A : Type ℓ} where
  abbrev pub init : System A
  init = record {
    items = [];
    consumers_inside = pos 0;
    producers_inside = pos 0;
    producers_waiting = pos 0;
    holder = none;
    at = λ t. away;
    pushed = [];
    popped = [];
  }

  abbrev pub empty : List A → Bool
  empty [] = true
  empty (x ∷ xs) = false

  unfoldable pub put : ℕ → Place A → (ℕ → Place A) → ℕ → Place A
  put t p at u = if t == u then p else at u

  abbrev pub wake : Place A → Place A
  wake away = away
  wake (write_test x) = write_test x
  wake (write_asleep x) = write_woken x
  wake (write_woken x) = write_woken x
  wake (writing x) = writing x
  wake written = written
  wake read_test = read_test
  wake read_asleep = read_woken
  wake read_woken = read_woken
  wake reading = reading
  wake (took x) = took x

  abbrev pub wake_reader : Place A → Place A
  wake_reader read_asleep = read_woken
  wake_reader p = p

  abbrev pub wake_writer : Place A → Place A
  wake_writer (write_asleep x) = write_woken x
  wake_writer p = p

  -- pthread_cond_signal(&approve_to_write), which wakes thread `w` if there is one to wake.
  abbrev pub signal : Option ℕ → (ℕ → Place A) → ℕ → Place A
  signal none at = at
  signal (some w) at = put w (wake_writer (at w)) at

  -- pthread_cond_broadcast(&approve_to_read)
  abbrev pub broadcast : (ℕ → Place A) → ℕ → Place A
  broadcast at t = wake_reader (at t)

  abbrev pub enter_write : ℕ → A → System A → System A
  enter_write t x s = record s {
    holder = some t;
    producers_waiting = s.producers_waiting +ℤ pos 1;
    at = put t (write_test x) s.at;
  }

  abbrev pub test_write : ℕ → A → System A → System A
  test_write t x s =
      if ltb_ℤ (pos 0) (s.producers_inside +ℤ s.consumers_inside)
      then record s { holder = none; at = put t (write_asleep x) s.at }
      else record s {
        producers_waiting = s.producers_waiting -ℤ pos 1;
        producers_inside = s.producers_inside +ℤ pos 1;
        at = put t (writing x) s.at;
      }

  abbrev pub push_item : ℕ → A → System A → System A
  push_item t x s = record s {
    items = s.items ++ x ∷ [];
    pushed = s.pushed ++ x ∷ [];
    at = put t written s.at;
  }

  abbrev pub producers_unlock : ℕ → Option ℕ → System A → System A
  producers_unlock t w s =
      let inside = s.producers_inside -ℤ pos 1 in
      record s {
        producers_inside = inside;
        holder = none;
        at = put t away (if inside ==ℤ pos 0 then signal w (broadcast s.at) else s.at);
      }

  -- The lock of `consumers_lock`, and each time a thread takes the lock again.
  abbrev pub take_lock : ℕ → Place A → System A → System A
  take_lock t p s = record s { holder = some t; at = put t p s.at }

  abbrev pub test_read : ℕ → System A → System A
  test_read t s =
      if not (s.producers_inside ==ℤ pos 0)
        || (not (s.producers_waiting ==ℤ pos 0)
            || (empty s.items || not (s.consumers_inside ==ℤ pos 0)))
      then record s { holder = none; at = put t read_asleep s.at }
      else record s { consumers_inside = s.consumers_inside +ℤ pos 1; at = put t reading s.at }

  -- `items.front()` and `items.pop()`, which an empty queue has none of.
  abbrev pub take_front : ℕ → System A → List A → Option (System A)
  take_front t s [] = none
  take_front t s (x ∷ xs) =
      some (record s { items = xs; popped = s.popped ++ x ∷ []; at = put t (took x) s.at })

  unfoldable pub pop_item : ℕ → System A → Option (System A)
  pop_item t s = take_front t s s.items

  abbrev pub consumers_unlock : ℕ → Option ℕ → System A → System A
  consumers_unlock t w s =
      let inside = s.consumers_inside -ℤ pos 1 in
      record s {
        consumers_inside = inside;
        holder = none;
        at = put t away (if inside ==ℤ pos 0 then signal w s.at else s.at);
      }

  -- One thread does what comes next.
  pub data Step (s : System A) : System A → Type ℓ where
    lock_to_push : (t : ℕ) (x : A) → s.at t ≡ away → s.holder ≡ none → Step s (enter_write t x s)
    test_to_push :
        (t : ℕ) (x : A) → s.at t ≡ write_test x → s.holder ≡ some t → Step s (test_write t x s)
    relock_to_push :
        (t : ℕ) (x : A)
        → s.at t ≡ write_woken x
        → s.holder ≡ none
        → Step s (take_lock t (write_test x) s)
    push : (t : ℕ) (x : A) → s.at t ≡ writing x → s.holder ≡ some t → Step s (push_item t x s)
    pushed_out :
        (t : ℕ) (w : Option ℕ)
        → s.at t ≡ written
        → s.holder ≡ some t
        → Step s (producers_unlock t w s)
    lock_to_pop : (t : ℕ) → s.at t ≡ away → s.holder ≡ none → Step s (take_lock t read_test s)
    test_to_pop : (t : ℕ) → s.at t ≡ read_test → s.holder ≡ some t → Step s (test_read t s)
    relock_to_pop :
        (t : ℕ) → s.at t ≡ read_woken → s.holder ≡ none → Step s (take_lock t read_test s)
    pop :
        (t : ℕ) {s' : System A}
        → s.at t ≡ reading
        → s.holder ≡ some t
        → pop_item t s ≡ some s'
        → Step s s'
    popped_out :
        (t : ℕ) (x : A) (w : Option ℕ)
        → s.at t ≡ took x
        → s.holder ≡ some t
        → Step s (consumers_unlock t w s)
    woken : (t : ℕ) → Step s (record s { at = put t (wake (s.at t)) s.at })

  -- Any number of steps, of any threads.
  pub data Reach (s : System A) : System A → Type ℓ where
    start : Reach s s
    later : {s1 s2 : System A} → Reach s s1 → Step s1 s2 → Reach s s2

  abbrev pub mover : {s s' : System A} → Step s s' → ℕ
  mover (lock_to_push t x e f) = t
  mover (test_to_push t x e f) = t
  mover (relock_to_push t x e f) = t
  mover (push t x e f) = t
  mover (pushed_out t w e f) = t
  mover (lock_to_pop t e f) = t
  mover (test_to_pop t e f) = t
  mover (relock_to_pop t e f) = t
  mover (pop t e f g) = t
  mover (popped_out t x w e f) = t
  mover (woken t) = t

  -- Any number of steps, all of them of the thread `t`.
  pub data Alone (t : ℕ) (s : System A) : System A → Type ℓ where
    at_rest : Alone t s s
    and_then : {s1 s2 : System A} → Alone t s s1 → (st : Step s1 s2) → mover st ≡ t → Alone t s s2
