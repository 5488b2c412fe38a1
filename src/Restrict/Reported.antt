-- ===== src/Restrict/Reported.antt =====
-- What `sys_get_process_log` reads out of the ring, window by window.
use operation_systems.Common.{
  ℕ, zero, suc, ◌+◌, ◌-◌, ◌%◌, ◌≤◌, ◌<◌, ◌≡◌, ◌∙◌, sym, refl, ap, ap₂, Option, none, some, List, [],
  ◌++◌, arith, length, get_elem?, get_elem?-lt, take, drop, drop-eq-cons,
}
use native.Mathlib.Nat.{zero-add, add-zero, suc-add, add-suc}
use operation_systems.Common.Int.{pos}
use operation_systems.Restrict.Task.{Ptr, block, Fai, Task}
use operation_systems.Restrict.Calls.{
  copy_log, both, collect_log, collect_at, first_index, end_of_log, second_rounds,
}
use operation_systems.Restrict.Ring.{IsRing}

both-nil : (back : Option (List Fai)) → back ≡ both (some []) back
both-nil none = refl
both-nil (some es) = refl

-- `rounds` entries of a block that agree with the history from `k` on are that part of it.
copy_log-slice :
    (buf hist : List Fai) (rounds i k : ℕ)
    → ((j : ℕ) → j < rounds → get_elem? buf (i + j) ≡ get_elem? hist (k + j))
    → k + rounds ≤ length hist
    → copy_log (block buf) i rounds ≡ some (take rounds (drop k hist))
unfolding copy_log
copy_log-slice buf hist zero i k agree fits = refl
copy_log-slice buf hist (suc r) i k agree fits =
    let (e, at) = get_elem?-lt hist k (omega arith) in
    rw (drop-eq-cons hist k at)
      (ground (arith, head e at, copy_log-slice buf hist r (suc i) (suc k) tail (omega arith)))
  where
    head : (e : Fai) → get_elem? hist k ≡ some e → get_elem? buf i ≡ some e
    head e at =
        ap (get_elem? buf) (omega arith)
        ∙ agree 0 (omega arith)
        ∙ ap (get_elem? hist) (omega arith)
        ∙ at

    tail : (j : ℕ) → j < r → get_elem? buf (suc i + j) ≡ get_elem? hist (suc k + j)
    tail j h =
        ap (get_elem? buf) (omega arith)
        ∙ agree (suc j) (omega arith)
        ∙ ap (get_elem? hist) (omega arith)

-- The two loops, each given by the number of its rounds.
collect_log-eq :
    (t : Task) (size i count k : ℕ) (front back : List Fai)
    → first_index t.log_list_size size ≡ pos i
    → end_of_log t.log_list_size - i ≡ count
    → copy_log t.log_list i count ≡ some front
    → second_rounds t.log_list_size size count ≡ k
    → copy_log t.log_list 0 k ≡ some back
    → collect_log t size ≡ some (front ++ back)
unfolding collect_log
collect_log-eq t size i count k front back start stop first rounds second =
    ap (collect_at t size) start ∙ rw stop (rw (rounds, first, second))

copy_log-append :
    (log : Ptr Fai) (a b i : ℕ)
    → copy_log log i (a + b) ≡ both (copy_log log i a) (copy_log log (i + a) b)
unfolding copy_log
copy_log-append log zero b i = rw (zero-add, add-zero) (both-nil (copy_log log i b))
copy_log-append log (suc a) b i =
    rw (suc-add, add-suc, ← suc-add i a) (ground (arith, copy_log-append log a b (suc i)))

module _ (t : Task) (buf hist : List Fai) (log : t.log_list ≡ block buf)
    (ring : IsRing buf t.log_list_size hist) (size : ℕ) where
  slice_at :
      (count i k : ℕ)
      → ((j : ℕ) → j < count → ((k + j) % 100 ≡ i + j) × (t.log_list_size ≤ k + j + 100))
      → k + count ≤ t.log_list_size
      → copy_log t.log_list i count ≡ some (take count (drop k hist))
  slice_at count i k place fits = rw log (
      copy_log-slice buf hist count i k
        (λ j h.
          ap (get_elem? buf) (sym (place j h).0) ∙ ring.kept (k + j) (omega arith) (place j h).1)
        (omega (arith, ring.counted)))

  -- Fewer than a hundred refusals: the last `size` of them.
  pub collect_log-short :
      t.log_list_size < 100
      → size ≤ t.log_list_size
      → collect_log t size ≡ some (take size (drop (t.log_list_size - size) hist) ++ [])
  collect_log-short few fits =
      collect_log-eq t size (t.log_list_size - size) size 0
        (take size (drop (t.log_list_size - size) hist)) [] (ground arith) (ground arith)
        (slice_at size (t.log_list_size - size) (t.log_list_size - size) (λ j h. omega arith)
          (omega arith))
        (ground arith) (slice_at 0 0 0 (λ j h. omega arith) (omega arith))

  -- The ring has gone round, and `size` reaches over its seam: the loops store one entry too many.
  pub collect_log-wrapped :
      100 ≤ t.log_list_size
      → 0 < t.log_list_size % 100
      → t.log_list_size % 100 ≤ size
      → size ≤ 100
      → collect_log t size
        ≡ some (
            take (size - t.log_list_size % 100) (drop (t.log_list_size - size) hist)
            ++ (take (t.log_list_size % 100) (drop (t.log_list_size - t.log_list_size % 100) hist)
                ++ take 1 (drop (t.log_list_size - 100) hist)))
  collect_log-wrapped round seam reach fits =
      let n : ℕ = t.log_list_size in
      let m : ℕ = n % 100 in
      collect_log-eq t size (100 + m - size) (size - m) (m + 1)
        (take (size - m) (drop (n - size) hist))
        (take m (drop (n - m) hist) ++ take 1 (drop (n - 100) hist)) (ground arith) (ground arith)
        (slice_at (size - m) (100 + m - size) (n - size) (λ j h. omega arith) (omega arith))
        (ground arith)
        (copy_log-append t.log_list m 1 0
          ∙ rw zero-add (
              ap₂ both (slice_at m 0 (n - m) (λ j h. omega arith) (omega arith))
                (slice_at 1 m (n - 100) (λ j h. omega arith) (omega arith))))

  -- The last refusal stands at the end of the ring.
  pub collect_log-full :
      100 ≤ t.log_list_size
      → t.log_list_size % 100 ≡ 0
      → size ≤ 100
      → collect_log t size ≡ some (take size (drop (t.log_list_size - size) hist) ++ [])
  collect_log-full round seam fits =
      collect_log-eq t size (100 - size) size 0 (take size (drop (t.log_list_size - size) hist)) []
        (ground arith) (ground arith)
        (slice_at size (100 - size) (t.log_list_size - size) (λ j h. omega arith) (omega arith))
        (ground arith) (slice_at 0 0 0 (λ j h. omega arith) (omega arith))

  -- The ring has gone round, and `size` does not reach back to its seam: the loops take the first
  -- entries of the last round.
  pub collect_log-early :
      100 ≤ t.log_list_size
      → 0 < size
      → size < t.log_list_size % 100
      → collect_log t size
        ≡ some ([] ++ take (size + 1) (drop (t.log_list_size - t.log_list_size % 100) hist))
  collect_log-early round ask early =
      let n : ℕ = t.log_list_size in
      let m : ℕ = n % 100 in
      collect_log-eq t size (100 + m - size) 0 (size + 1) [] (take (size + 1) (drop (n - m) hist))
        (ground arith) (ground arith)
        (slice_at 0 (100 + m - size) 0 (λ j h. omega arith) (omega arith)) (ground arith)
        (slice_at (size + 1) 0 (n - m) (λ j h. omega arith) (omega arith))
