-- ===== src/Queue/Tests.antt =====
-- Runs of the queue, and instances of the theorems on it.
use operation_systems.Common.{ℕ, ◌≡◌, refl, [], ◌∷◌, ◌++◌, none, some, true, List}
use operation_systems.Common.Int.{◌+ℤ◌, ◌-ℤ◌}
use operation_systems.Queue.Monitor.{
  away, reading, read_test, read_asleep, System, init, put, enter_write, test_write, push_item,
  producers_unlock, take_lock, test_read, lock_to_push, test_to_push, push, pushed_out, lock_to_pop,
  test_to_pop, Reach, start, later, Alone, pop_item, took,
}
use operation_systems.Queue.Threads.{holds}
use operation_systems.Queue.Reached.{pop_item-safe, asleep-empty, pop-runs}

abbrev empty_queue : System ℕ
empty_queue = init

-- Thread 0 has put 5 into the queue.
abbrev one_item : System ℕ
one_item = producers_unlock 0 none (push_item 0 5 (test_write 0 5 (enter_write 0 5 empty_queue)))

one_item-Reach : Reach empty_queue one_item
unfolding put ◌+ℤ◌ ◌-ℤ◌
one_item-Reach =
    later
      (later (later (later start (lock_to_push 0 5 refl refl)) (test_to_push 0 5 refl refl))
        (push 0 5 refl refl))
      (pushed_out 0 none refl refl)

one_item_waits : one_item.items ≡ 5 ∷ []
unfolding ◌+ℤ◌ ◌-ℤ◌
one_item_waits = refl

-- Thread 1 has been let in to take it.
abbrev let_in : System ℕ
let_in = test_read 1 (take_lock 1 read_test one_item)

let_in-Reach : Reach empty_queue let_in
unfolding put ◌+ℤ◌ ◌-ℤ◌
let_in-Reach = later (later one_item-Reach (lock_to_pop 1 refl refl)) (test_to_pop 1 refl refl)

-- Thread 1 has come too early.
abbrev early : System ℕ
early = test_read 1 (take_lock 1 read_test empty_queue)

early-Reach : Reach empty_queue early
unfolding put
early-Reach = later (later start (lock_to_pop 1 refl refl)) (test_to_pop 1 refl refl)

early_asleep : early.at 1 ≡ read_asleep
unfolding put
early_asleep = refl

reads_now : let_in.at 1 ≡ reading
unfolding put ◌+ℤ◌ ◌-ℤ◌
reads_now = refl

holds_now : holds (let_in.at 1) ≡ true
unfolding put ◌+ℤ◌ ◌-ℤ◌
holds_now = refl

free_now : one_item.holder ≡ none
unfolding ◌+ℤ◌ ◌-ℤ◌
free_now = refl

outside_now : one_item.at 1 ≡ away
unfolding put ◌+ℤ◌ ◌-ℤ◌
outside_now = refl

pop_item-safe_example :
    ((let t : ℕ = 1 in t ≡ 1))
    × ((x : ℕ) × (xs : List ℕ) × (s' : System ℕ) × (let_in.items ≡ x ∷ xs)
        × (pop_item 1 let_in ≡ some s')
        × (s'.items ≡ xs)
        × (s'.at 1 ≡ took x)
        × (s'.popped ≡ let_in.popped ++ x ∷ [])
        × (s'.pushed ≡ s'.popped ++ s'.items))
pop_item-safe_example = pop_item-safe let_in-Reach 1 1 reads_now holds_now

asleep-empty_example : early.items ≡ []
asleep-empty_example = asleep-empty early-Reach refl 1 early_asleep

pop-runs_example :
    (s' : System ℕ) × Alone 1 one_item s'
    × (s'.at 1 ≡ away)
    × (s'.holder ≡ none)
    × (s'.items ≡ [])
    × (s'.popped ≡ one_item.popped ++ 5 ∷ [])
pop-runs_example = pop-runs one_item-Reach free_now 1 outside_now 5 [] one_item_waits
