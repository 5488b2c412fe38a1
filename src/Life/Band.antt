-- ===== src/Life/Band.antt =====
-- What one call of `calculate_next_generation_matrix` writes.
use operation_systems.Common.{
  ℕ, zero, suc, ◌+◌, ◌-◌, ◌≤◌, ◌<◌, ◌≡◌, refl, Bool, ◌&&◌, some, leb, ltb, ◌==◌, if◌then◌else◌,
  arith, Bool-cases, inl, inr,
}
use operation_systems.Life.Cells.{
  Board, Job, put_cell, next_cell, store_next, fill_line, fill_lines,
  calculate_next_generation_matrix,
}
use operation_systems.Life.Neighbours.{IsBoard}
use operation_systems.Life.Filled.{successor, next_cell-eq}

module _ (h w : ℕ) (curr : Board) (b : IsBoard h w curr) (job : Job) (ew : job.input_width ≡ w)
    (eh : job.input_height ≡ h) where
  -- `next'` is a board that differs from `next` in the given cells, which hold their successors.
  abbrev Wrote : (ℕ → ℕ → Bool) → Board → Board → Type 0
  Wrote cells next next' =
      IsBoard h w next'
      × ((i j : ℕ) → next'.cell i j ≡ (if cells i j then successor h w curr i j else next.cell i j))

  stores :
      (next : Board) (line num : ℕ)
      → IsBoard h w next
      → line < h
      → num < w
      → store_next next line num (next_cell curr job line num)
        ≡ some (put_cell line num (successor h w curr line num) next)
  stores next line num d p q =
      ground
        (arith, next_cell-eq h w curr job line num b ew eh p q, d.all_lines, d.all_columns line p)

  fill_line-Wrote :
      (line left num : ℕ) (next : Board)
      → num + left ≡ w
      → line < h
      → IsBoard h w next
      → (next' : Board) × (fill_line curr job line left num next ≡ some next')
        × Wrote (λ i j. i == line && (leb num j && ltb j w)) next next'
  unfolding fill_line
  fill_line-Wrote line zero num next e p d = (next, refl, (d, λ i j. ground arith))
  fill_line-Wrote line (suc left) num next e p d =
      let now : Board = put_cell line num (successor h w curr line num) next in
      let d' : IsBoard h w now = record { all_lines = d.all_lines; all_columns = d.all_columns } in
      let (next', r, (k, c)) = fill_line-Wrote line left (suc num) now (omega arith) p d' in
      (
        next',
        rw (stores next line num d p (omega arith), fill_line) r,
        (k, λ i j. ground (arith, c i j)),
      )

  fill_lines-Wrote :
      (left line : ℕ) (next : Board)
      → line + left ≤ h
      → IsBoard h w next
      → (next' : Board) × (fill_lines curr job left line next ≡ some next')
        × Wrote (λ i j. (leb line i && ltb i (line + left)) && ltb j w) next next'
  unfolding fill_lines
  fill_lines-Wrote zero line next p d = (next, refl, (d, λ i j. ground arith))
  fill_lines-Wrote (suc left) line next p d =
      let (now, e, (d', c)) =
        fill_line-Wrote line job.input_width 0 next (omega arith) (omega arith) d in
      let (next', r, (k, c')) = fill_lines-Wrote left (suc line) now (omega arith) d' in
      (next', rw (e, fill_lines) r, (k, λ i j. ground (arith, c i j, c' i j)))

-- A job for lines of an `h` by `w` board stays in range. It writes its lines of the next matrix, whole,
-- with the successors of the current one's cells, and nothing else.
pub calculate_next_generation_matrix-eq :
    (h w : ℕ) (curr next : Board) (job : Job)
    → IsBoard h w curr
    → IsBoard h w next
    → job.input_width ≡ w
    → job.input_height ≡ h
    → job.ending_line < h
    → (next' : Board) × (calculate_next_generation_matrix curr job next ≡ some next')
      × IsBoard h w next'
      × ((i j : ℕ)
          → j < w
          → next'.cell i j ≡ (
              if leb job.starting_line i && leb i job.ending_line
              then successor h w curr i j
              else next.cell i j))
unfolding calculate_next_generation_matrix fill_lines
calculate_next_generation_matrix-eq h w curr next job b d ew eh inside =
    elim (Bool-cases (ltb job.ending_line job.starting_line)) [
      | inl none_left ↦
          let left : job.ending_line + 1 - job.starting_line ≡ 0 = ground arith in
          (next, rw left (no_lines next), d, λ i j q. ground arith)
      | inr some_left ↦
          let (next', r, (k, c)) =
            fill_lines-Wrote h w curr b job ew eh (job.ending_line + 1 - job.starting_line)
              job.starting_line next (ground arith) d in
          (next', r, k, λ i j q. ground (arith, c i j))
    ]
  where
    no_lines : (m : Board) → fill_lines curr job 0 job.starting_line m ≡ some m
    no_lines m = refl
