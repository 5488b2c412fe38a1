-- ===== src/Fork/Passed.antt =====
-- What one run over the tasks finds out.
use operation_systems.Common.{
  ℕ, ◌≤◌, ◌<◌, ◌≡◌, refl, Bool, false, ◌||◌, List, [], ◌∷◌, ◌==◌, if-all, arith,
}
use operation_systems.Fork.Pids.{Ids, Cursor, has_id, lower_to, lower, pass}

-- Some task has the number.
abbrev pub taken : ℕ → List Ids → Bool
taken n [] = false
taken n (t ∷ tasks) = has_id n t || taken n tasks

-- The numbers between `last_pid` and `next_safe` are free.
abbrev pub IsClear : List Ids → Cursor → Type 0
IsClear tasks c = (n : ℕ) → c.last_pid < n → n < c.next_safe → taken n tasks ≡ false

lower_to-lt :
    (last x next n : ℕ) → last < n → n < lower_to last x next → ((x == n) ≡ false) × (n < next)
lower_to-lt last x next n l m = ground arith

lower-lt :
    (last : ℕ) (t : Ids) (next n : ℕ)
    → last < n
    → n < lower last t next
    → (has_id n t ≡ false) × (n < next)
lower-lt last t next n l m =
    let by_pid = lower_to last t.pid next in
    let by_pgrp = lower_to last t.pgrp by_pid in
    let by_tgid = lower_to last t.tgid by_pgrp in
    let (a, m3) = lower_to-lt last t.session by_tgid n l m in
    let (b, m2) = lower_to-lt last t.tgid by_pgrp n l m3 in
    let (c, m1) = lower_to-lt last t.pgrp by_pid n l m2 in
    let (d, m0) = lower_to-lt last t.pid next n l m1 in (rw (d, c, b, a), m0)

lower_to-le : (last x next : ℕ) → lower_to last x next ≤ next
lower_to-le last x next = ground arith

lower-le : (last : ℕ) (t : Ids) (next : ℕ) → lower last t next ≤ next
lower-le last t next =
    let by_pid = lower_to last t.pid next in
    let by_pgrp = lower_to last t.pgrp by_pid in
    let by_tgid = lower_to last t.tgid by_pgrp in
    omega (
      arith,
      lower_to-le last t.session by_tgid,
      lower_to-le last t.tgid by_pgrp,
      lower_to-le last t.pgrp by_pid,
      lower_to-le last t.pid next,
    )

-- What a run over the tasks has found out.
unfoldable pub Passed : ℕ → List Ids → ℕ → Bool × ℕ → Type 0
Passed last tasks next (found, next') =
    (next' ≤ next)
    × (taken last tasks ≡ found)
    × (found ≡ false → (n : ℕ) → last < n → n < next' → taken n tasks ≡ false)

pub pass-Passed :
    (last : ℕ) (tasks : List Ids) (next : ℕ) → Passed last tasks next (pass last tasks next)
unfolding Passed pass
pass-Passed last [] next = (omega arith, refl, λ e n l m. refl)
pass-Passed last (t ∷ tasks) next =
    let (le, same, clear) = pass-Passed last tasks (lower last t next) in
    if-all (Passed last (t ∷ tasks) next) (has_id last t) _ _
      (λ e. (omega arith, rw e, λ f. absurd cc))
      (λ e. (
        omega (arith, lower-le last t next),
        rw e same,
        λ f n l m.
            let (le', same', clear') = pass-Passed last tasks (lower last t next) in
            let (here, further) = lower-lt last t next n l (omega arith) in rw here (clear f n l m),
      ))
