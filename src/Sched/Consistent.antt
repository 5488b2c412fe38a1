-- ===== src/Sched/Consistent.antt =====
-- When the priority arrays hold exactly the tasks that say they stand in them, and what linking a
-- task in or out does to that.
use operation_systems.Common.{
  ℕ, zero, suc, ◌+◌, ◌<◌, ◌≡◌, refl, ap, inl, inr, false, ◌&&◌, not, Bool-cases, Option, some, none,
  List, [], ◌∷◌, ◌++◌, arith, ltb, ◌==◌, ==_iff, if◌then◌else◌, length, length-append,
}
use operation_systems.Sched.Queue.{update, PrioArray, is_empty, unlink, remove_from, append_to}

abbrev pub occurs : ℕ → List ℕ → ℕ
occurs p [] = 0
occurs p (q ∷ qs) = (if p == q then 1 else 0) + occurs p qs

-- The tasks in the queues below `n`.
unfoldable pub total : (ℕ → List ℕ) → ℕ → ℕ
total f zero = 0
total f (suc n) = total f n + length (f n)

-- How often a task at a place stands in queue `j` of array `i`.
abbrev pub here : Option (ℕ × ℕ) → ℕ → ℕ → ℕ
here none i j = 0
here (some (a, k)) i j = if a == i && k == j then 1 else 0

pub record IsConsistent (arrays : ℕ → PrioArray) (place : ℕ → Option (ℕ × ℕ)) : Type 0 where
  pub placed : (p i j : ℕ) → occurs p ((arrays i).queue j) ≡ here (place p) i j
  pub bits : (i j : ℕ) → j < 140 → (arrays i).bitmap j ≡ not (is_empty ((arrays i).queue j))
  pub counted : (i : ℕ) → (arrays i).nr_active ≡ total (arrays i).queue 140
  pub ranged : (p i j : ℕ) → place p ≡ some (i, j) → j < 140

pub occurs-append : (p : ℕ) (xs ys : List ℕ) → occurs p (xs ++ ys) ≡ occurs p xs + occurs p ys
occurs-append p [] ys = omega arith
occurs-append p (x ∷ xs) ys = omega (arith, occurs-append p xs ys)

unlink_absent : (p : ℕ) (xs : List ℕ) → occurs p xs ≡ 0 → unlink p xs ≡ xs
unlink_absent p [] h = refl
unlink_absent p (x ∷ xs) h = ground (arith, unlink_absent p xs)

occurs-unlink :
    (q p : ℕ) (xs : List ℕ) → occurs q (unlink p xs) ≡ (if p == q then 0 else occurs q xs)
occurs-unlink q p [] = ground arith
occurs-unlink q p (x ∷ xs) = ground (arith, occurs-unlink q p xs)

length-unlink : (p : ℕ) (xs : List ℕ) → length (unlink p xs) + occurs p xs ≡ length xs
length-unlink p [] = omega arith
length-unlink p (x ∷ xs) = ground (arith, length-unlink p xs)

pub is_empty-append : (xs : List ℕ) (p : ℕ) → is_empty (xs ++ p ∷ []) ≡ false
is_empty-append [] p = refl
is_empty-append (x ∷ xs) p = refl

pub total-unlink :
    (p k : ℕ) (f : ℕ → List ℕ)
    → ((j : ℕ) → occurs p (f j) ≡ (if k == j then 1 else 0))
    → (n : ℕ) → total (λ j. unlink p (f j)) n + (if ltb k n then 1 else 0) ≡ total f n
unfolding total
total-unlink p k f once zero = ground arith
total-unlink p k f once (suc n) =
    ground (arith, total-unlink p k f once n, once n, length-unlink p (f n))

total-append :
    (p k : ℕ) (f : ℕ → List ℕ) (n : ℕ)
    → total (update f k (f k ++ p ∷ [])) n ≡ total f n + (if ltb k n then 1 else 0)
unfolding total
total-append p k f zero = ground arith
total-append p k f (suc n) = elim (Bool-cases (k == n)) [
  | inl e ↦
      let e' : k ≡ n = (==_iff k n).0 e in
      ground
        (arith, total-append p k f n, ap (λ j. length (f j)) e', length-append {0} (f k) (p ∷ []))
  | inr ne ↦ ground (arith, total-append p k f n)
]

module _ {arrays : ℕ → PrioArray} {place : ℕ → Option (ℕ × ℕ)} (c : IsConsistent arrays place)
    (p i k : ℕ) where
  -- A task that stands nowhere is appended.
  pub append_to-IsConsistent :
      place p ≡ none
      → k < 140
      → IsConsistent (update arrays i (append_to p k (arrays i))) (update place p (some (i, k)))
  append_to-IsConsistent out h = record {
    placed = λ q a j.
        ground (
          arith,
          c.placed q a j,
          c.placed q i k,
          out,
          occurs-append q ((arrays i).queue k) (p ∷ []),
        );
    bits = λ a j s. ground (arith, c.bits a j s, is_empty-append ((arrays i).queue k) p);
    counted = λ a. ground (arith, c.counted a, c.counted i, total-append p k (arrays i).queue 140);
    ranged = λ q a j e. ground (arith, c.ranged q a j);
  }

  pub once_in :
      place p ≡ some (i, k) → (j : ℕ) → occurs p ((arrays i).queue j) ≡ (if k == j then 1 else 0)
  once_in at j = ground (arith, c.placed p i j, at)

  -- A task is taken from where it stands.
  pub remove_from-IsConsistent :
      place p ≡ some (i, k)
      → IsConsistent (update arrays i (remove_from p k (arrays i))) (update place p none)
  remove_from-IsConsistent at = record {
    placed = λ q a j.
        ground (arith, c.placed q a j, c.placed p a j, at, occurs-unlink q p ((arrays i).queue j));
    bits = λ a j s.
        ground (arith, c.bits a j s, at, unlink_absent p ((arrays i).queue j), c.placed p i j);
    counted = λ a. ground (
      arith,
      c.counted a,
      c.counted i,
      c.ranged p i k at,
      total-unlink p k (arrays i).queue (once_in at) 140,
    );
    ranged = λ q a j e. ground (arith, c.ranged q a j);
  }
