-- ===== src/Life/Finished.antt =====
-- The steps that are left in a generation, and that a job which is not counted can go on.
use operation_systems.Common.{
  ℕ, zero, suc, ◌+◌, ◌-◌, ◌*◌, ◌≤◌, ◌<◌, ◌≡◌, ◌∙◌, ap, sym, ◌≢◌, refl, true, false, Option, none,
  some, List, ltb, ◌==◌, inl, inr, Bool-cases, ==_iff, if◌then◌else◌, arith, length, get_elem?,
  get_elem?-lt,
}
use operation_systems.Life.Cells.{Board, Job, store_next, next_cell, put_cell}
use operation_systems.Life.Neighbours.{IsBoard}
use operation_systems.Life.Plan.{Progress, Round, Step, write, line_end, count}
use operation_systems.Life.Crew.{job_of}
use operation_systems.Life.Filled.{
  IsPlan, IsFilled, successor, counted_below, next_cell-eq, get_elem?-below,
}

counted_below-le : (at : ℕ → Progress) (n : ℕ) → counted_below at n ≤ n
counted_below-le at zero = omega arith
counted_below-le at (suc n) = ground (arith, counted_below-le at n)

pub all_counted :
    (at : ℕ → Progress) (n k : ℕ) → counted_below at n ≡ n → k < n → (at k).counted ≡ true
all_counted at zero k e p = absurd (omega arith)
all_counted at (suc n) k e p = elim (Bool-cases (k == n)) [
  | inl same ↦ ground (arith, counted_below-le at n)
  | inr other ↦ all_counted at n k (ground (arith, counted_below-le at n)) (ground arith)
]

pub some_uncounted :
    (at : ℕ → Progress) (n : ℕ)
    → counted_below at n ≢ n
    → (k : ℕ) × (k < n) × ((at k).counted ≡ false)
some_uncounted at zero h = absurd (h refl)
some_uncounted at (suc n) h = elim (Bool-cases (at n).counted) [
  | inl e ↦ later_one (some_uncounted at n (ground (arith, h)))
  | inr e ↦ (n, omega arith, e)
]
  where
    later_one :
        ((k : ℕ) × (k < n) × ((at k).counted ≡ false))
        → (k : ℕ) × (k < suc n) × ((at k).counted ≡ false)
    later_one (k, p, e) = (k, omega arith, e)

-- The steps that a job still has to make.
abbrev pub cost : ℕ → Option Job → Progress → ℕ
cost w none p = 0
cost w (some job) p =
    (job.ending_line + 1 - p.line) * (w + 1) + (w - p.num) + (if p.counted then 0 else 1)

abbrev pub sum_below : (ℕ → Progress → ℕ) → (ℕ → Progress) → ℕ → ℕ
sum_below f at zero = 0
sum_below f at (suc n) = f n (at n) + sum_below f at n

-- The steps of the generation that are left.
unfoldable pub remaining : ℕ → List Job → (ℕ → Progress) → ℕ
remaining w plan at = sum_below (λ k. cost w (get_elem? plan k)) at (length plan)

-- Where one job gets closer to its end by a step, all together do.
sum_below-put :
    (f : ℕ → Progress → ℕ) (at : ℕ → Progress) (k : ℕ) (p : Progress) (n : ℕ)
    → f k p + 1 ≡ f k (at k)
    → sum_below f (λ a. if k == a then p else at a) n + (if ltb k n then 1 else 0)
      ≡ sum_below f at n
sum_below-put f at k p zero e = ground arith
sum_below-put f at k p (suc n) e = elim (Bool-cases (k == n)) [
  | inl same ↦
      let same' : k ≡ n = (==_iff k n).0 same in
      ground (arith, sum_below-put f at k p n e, ap (λ a. f a p) same', ap (λ a. f a (at a)) same')
  | inr other ↦ ground (arith, sum_below-put f at k p n e)
]

one_line_less :
    (x y w c : ℕ) → y ≡ x + 1 → x * (w + 1) + (w - 0) + c + 1 ≡ y * (w + 1) + (w - w) + c
one_line_less x y w c e = rw e (grind arith)

module _ (h w : ℕ) (curr : Board) (plan : List Job) (p : IsPlan h w plan) where
  closer :
      (at : ℕ → Progress) (k : ℕ) (job : Job) (q : Progress)
      → get_elem? plan k ≡ some job
      → cost w (some job) q + 1 ≡ cost w (some job) (at k)
      → remaining w plan (λ a. if k == a then q else at a) + 1 ≡ remaining w plan at
  unfolding remaining
  closer at k job q e c =
      let c' : cost w (get_elem? plan k) q + 1 ≡ cost w (get_elem? plan k) (at k) = rw e c in
      let below : k < length plan = get_elem?-below plan k job e in
      ground (arith, sum_below-put (λ a. cost w (get_elem? plan a)) at k q (length plan) c')

  -- A step on any job brings the jobs closer to their end by exactly one.
  pub remaining-Step :
      {s t : Round} → Step curr plan s t → remaining w plan t.at + 1 ≡ remaining w plan s.at
  remaining-Step {s} (write k {job} e l n stored r) =
      ap (λ u. remaining w plan u.at + 1) r
      ∙ closer s.at k job (record (s.at k) { num = (s.at k).num + 1 }) e
          (ground (arith, p.width k job e))
  remaining-Step {s} (line_end k {job} e l n r) =
      let n' : (s.at k).num ≡ w = n ∙ p.width k job e in
      ap (λ u. remaining w plan u.at + 1) r
      ∙ closer s.at k job (record (s.at k) { line = (s.at k).line + 1; num = 0 }) e
          (one_line_less (job.ending_line + 1 - ((s.at k).line + 1))
              (job.ending_line + 1 - (s.at k).line) w (if (s.at k).counted then 0 else 1)
              (omega arith)
            ∙ ap
                (λ x.
                  (job.ending_line + 1 - (s.at k).line) * (w + 1)
                  + (w - x)
                  + (if (s.at k).counted then 0 else 1))
                (sym n'))
  remaining-Step {s} (count k {job} e l n r) =
      ap (λ u. remaining w plan u.at + 1) r
      ∙ closer s.at k job (record (s.at k) { counted = true }) e (ground arith)

  module _ (b : IsBoard h w curr) where
    storable :
        {s : Round} (f : IsFilled h w curr plan s) (k : ℕ) (job : Job)
        → get_elem? plan k ≡ some job
        → (s.at k).line ≤ job.ending_line
        → (s.at k).num < job.input_width
        → store_next s.next
            (s.at k).line
            (s.at k).num
            (next_cell curr job (s.at k).line (s.at k).num)
          ≡ some (
              put_cell
                (s.at k).line
                (s.at k).num
                (successor h w curr (s.at k).line (s.at k).num)
                s.next)
    storable {s} f k job e l n =
        let i : ℕ = (s.at k).line in
        let j : ℕ = (s.at k).num in
        let i_in : i < h = omega (arith, p.inside k job e) in
        let j_in : j < w = omega (arith, p.width k job e) in
        let computed : next_cell curr job i j ≡ some (successor h w curr i j) =
          next_cell-eq h w curr job i j b (p.width k job e) (p.height k job e) i_in j_in in
        ground (arith, computed, f.board.all_lines, f.board.all_columns i i_in)

    -- The thread that has a job can go on with it until it is counted.
    pub Step-of_job :
        {s : Round}
        → IsFilled h w curr plan s
        → (k : ℕ) → k < length plan
        → (s.at k).counted ≡ false
        → (t : Round) × (st : Step curr plan s t) × (job_of st ≡ k)
    Step-of_job {s} f k below u =
        let (job, e) = get_elem?-lt plan k below in
        elim (Bool-cases (ltb job.ending_line (s.at k).line)) [
          | inl l ↦ (_, count k e (ground arith) u refl, refl)
          | inr l ↦ elim (Bool-cases (ltb (s.at k).num job.input_width)) [
            | inl n ↦ (
              _,
              write k e (ground arith) (ground arith)
                  (storable f k job e (ground arith) (ground arith)) refl,
              refl,
            )
            | inr n ↦ (
              _,
              line_end k e (ground arith) (ground (arith, f.in_line k, p.width k job e)) refl,
              refl,
            )
          ]
        ]
