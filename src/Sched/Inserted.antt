-- ===== src/Sched/Inserted.antt =====
-- A task may be linked in at any place of its queue.
use operation_systems.Common.{
  ℕ, zero, suc, ◌+◌, ◌<◌, ◌≡◌, ◌∙◌, refl, ap, inl, inr, true, false, Bool-cases, Option, some, none,
  List, arith, ltb, ◌==◌, ==_iff, if◌then◌else◌, length,
}
use operation_systems.Sched.Queue.{update, PrioArray, is_empty}
use operation_systems.Sched.Consistent.{occurs, total, IsConsistent}

total-ext : (f g : ℕ → List ℕ) → ((j : ℕ) → f j ≡ g j) → (n : ℕ) → total f n ≡ total g n
unfolding total
total-ext f g same zero = refl
total-ext f g same (suc n) = omega (arith, total-ext f g same n, ap length (same n))

total-insert :
    (k : ℕ) (f : ℕ → List ℕ) (ps : List ℕ)
    → length ps ≡ suc (length (f k))
    → (n : ℕ) → total (update f k ps) n ≡ total f n + (if ltb k n then 1 else 0)
unfolding total
total-insert k f ps longer zero = ground arith
total-insert k f ps longer (suc n) = elim (Bool-cases (k == n)) [
  | inl e ↦
      let e' : k ≡ n = (==_iff k n).0 e in
      ground (arith, total-insert k f ps longer n, longer, ap (λ j. length (f j)) e')
  | inr ne ↦ ground (arith, total-insert k f ps longer n)
]

-- `ps` is the list `qs` with `p` put in somewhere.
pub record IsWith (p : ℕ) (qs ps : List ℕ) : Type 0 where
  pub occurs_once_more : (q : ℕ) → occurs q ps ≡ (if p == q then 1 else 0) + occurs q qs
  pub longer : length ps ≡ suc (length qs)
  pub in_use : is_empty ps ≡ false

-- The array `i`, which is `r` without the task, becomes `a`.
pub insert-IsConsistent :
    (arrays : ℕ → PrioArray) (place : ℕ → Option (ℕ × ℕ)) (p i k : ℕ) (r a : PrioArray)
    (ps : List ℕ)
    → IsConsistent (update arrays i r) place
    → place p ≡ none
    → k < 140
    → IsWith p (r.queue k) ps
    → ((j : ℕ) → a.queue j ≡ update r.queue k ps j)
    → ((j : ℕ) → j < 140 → a.bitmap j ≡ update r.bitmap k true j)
    → a.nr_active ≡ r.nr_active + 1
    → IsConsistent (update arrays i a) (update place p (some (i, k)))
insert-IsConsistent arrays place p i k r a ps c out h w queues bits_now one_more = record {
  placed =
      λ q b j. ground (arith, c.placed q b j, c.placed q i k, out, w.occurs_once_more q, queues j);
  bits = λ b j s. ground (arith, c.bits b j s, w.in_use, queues j, bits_now j s);
  counted = λ b. ground (
    arith,
    c.counted b,
    c.counted i,
    one_more,
    total-ext a.queue (update r.queue k ps) queues 140 ∙ total-insert k r.queue ps w.longer 140,
  );
  ranged = λ q b j e. ground (arith, c.ranged q b j);
}
