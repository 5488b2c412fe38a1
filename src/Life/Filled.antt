-- ===== src/Life/Filled.antt =====
-- What the threads of one generation have written, whatever their order.
use operation_systems.Common.{
  ℕ, zero, suc, ◌+◌, ◌≤◌, ◌<◌, ◌≡◌, ◌∙◌, ap, refl, sym, Bool, true, false, some, List, [], ◌∷◌, ltb,
  ◌==◌, ◌||◌, not, ◌⊎◌, inl, inr, ==_iff, if◌then◌else◌, arith, length, get_elem?,
}
use mathlib.Core.Path.{subst}
use operation_systems.Life.Cells.{Board, Job, rule, next_cell, store_next, put_cell}
use operation_systems.Life.Neighbours.{IsBoard, neighbours, calculate_live_neighbours-eq}
use operation_systems.Life.Plan.{
  Progress, Round, put_at, Step, write, line_end, count, start_line, start, Reach, here, later,
}

-- Conway's rule, of a cell and the live ones around it: three make a birth, and a cell with fewer than two
-- is lonely, with more than three crowded.
abbrev pub lives_on : Bool → ℕ → Bool
lives_on alive n = if alive then not (ltb n 2 || ltb 3 n) else n == 3

-- A cell of the next generation.
unfoldable pub successor : ℕ → ℕ → Board → ℕ → ℕ → Bool
successor h w m i j = lives_on (m.cell i j) (neighbours h w m i j)

rule-lives_on : (b : Bool) (n : ℕ) → rule b n ≡ lives_on b n
rule-lives_on true n = ground arith
rule-lives_on false n = refl

-- The code's rule, at a job for the whole board's size.
pub next_cell-eq :
    (h w : ℕ) (m : Board) (job : Job) (i j : ℕ)
    → IsBoard h w m
    → job.input_width ≡ w
    → job.input_height ≡ h
    → i < h
    → j < w
    → next_cell m job i j ≡ some (successor h w m i j)
unfolding next_cell successor
next_cell-eq h w m job i j b ew eh p q =
    rw (ew, eh)
      (ground (
        arith,
        rule-lives_on (m.cell i j) (neighbours h w m i j),
        calculate_live_neighbours-eq h w m i j b p q,
        b.all_lines,
        b.all_columns i p,
      ))

-- Every job is for lines of the board.
pub record IsPlan (h w : ℕ) (plan : List Job) : Type 0 where
  pub width : (k : ℕ) (job : Job) → get_elem? plan k ≡ some job → job.input_width ≡ w
  pub height : (k : ℕ) (job : Job) → get_elem? plan k ≡ some job → job.input_height ≡ h
  pub inside : (k : ℕ) (job : Job) → get_elem? plan k ≡ some job → job.ending_line < h

-- The jobs that are counted, of the first `n`.
abbrev pub counted_below : (ℕ → Progress) → ℕ → ℕ
counted_below at zero = 0
counted_below at (suc n) = (if (at n).counted then 1 else 0) + counted_below at n

-- Line `i`, column `j` comes before the place of a job.
abbrev pub Passed : Progress → ℕ → ℕ → Type 0
Passed p i j = (i < p.line) ⊎ ((i ≡ p.line) × (j < p.num))

pub record IsFilled (h w : ℕ) (curr : Board) (plan : List Job) (s : Round) : Type 0 where
  pub board : IsBoard h w s.next
  pub filled :
      (k : ℕ) (job : Job) (i j : ℕ)
      → get_elem? plan k ≡ some job
      → job.starting_line ≤ i
      → j < w
      → Passed (s.at k) i j
      → s.next.cell i j ≡ successor h w curr i j
  pub done :
      (k : ℕ) (job : Job)
      → get_elem? plan k ≡ some job
      → (s.at k).counted ≡ true
      → job.ending_line < (s.at k).line
  pub in_line : (k : ℕ) → (s.at k).num ≤ w
  pub counter : s.finished ≡ counted_below s.at (length plan)

counted_below-same :
    (at at' : ℕ → Progress) (n : ℕ)
    → ((k : ℕ) → (at k).counted ≡ (at' k).counted)
    → counted_below at n ≡ counted_below at' n
counted_below-same at at' zero h = refl
counted_below-same at at' (suc n) h = ground (arith, h n, counted_below-same at at' n h)

-- One job more is counted.
counted_below-put :
    (at at' : ℕ → Progress) (k n : ℕ)
    → ((a : ℕ) → (at' a).counted ≡ (if k == a then true else (at a).counted))
    → (at k).counted ≡ false
    → counted_below at' n ≡ counted_below at n + (if ltb k n then 1 else 0)
counted_below-put at at' k zero h e = ground arith
counted_below-put at at' k (suc n) h e = ground (arith, h n, counted_below-put at at' k n h e)

counted_below-none :
    (at : ℕ → Progress) (n : ℕ) → ((k : ℕ) → (at k).counted ≡ false) → counted_below at n ≡ 0
counted_below-none at zero h = refl
counted_below-none at (suc n) h = ground (arith, h n, counted_below-none at n h)

pub get_elem?-below :
    (plan : List Job) (k : ℕ) (job : Job) → get_elem? plan k ≡ some job → k < length plan
get_elem?-below [] k job e = absurd cc
get_elem?-below (x ∷ plan) zero job e = omega arith
get_elem?-below (x ∷ plan) (suc k) job e = omega (arith, get_elem?-below plan k job e)

module _ (h w : ℕ) (curr : Board) (plan : List Job) (b : IsBoard h w curr)
    (p : IsPlan h w plan) where
  pub start-IsFilled : (next : Board) → IsBoard h w next → IsFilled h w curr plan (start plan next)
  start-IsFilled next n = record {
    board = n;
    filled = λ k job i j at from q passed. absurd (unpassed k job i j at from passed);
    done = λ k job at c. cc;
    in_line = λ k. omega arith;
    counter = sym (counted_below-none (start plan next).at (length plan) (λ k. refl));
  }
    where
      unpassed :
          (k : ℕ) (job : Job) (i j : ℕ)
          → get_elem? plan k ≡ some job
          → job.starting_line ≤ i
          → Passed ((start plan next).at k) i j
          → ⊥
      unpassed k job i j at from (inl q) = ground (arith, ap start_line at)
      unpassed k job i j at from (inr (e, q)) = omega arith

  module _ {s : Round} (f : IsFilled h w curr plan s) (k : ℕ) {job : Job}
      (at : get_elem? plan k ≡ some job) where
    -- What the body of the inner loop stores.
    stored :
        {next' : Board}
        → (s.at k).line ≤ job.ending_line
        → (s.at k).num < job.input_width
        → store_next s.next
            (s.at k).line
            (s.at k).num
            (next_cell curr job (s.at k).line (s.at k).num)
          ≡ some next'
        → next'
          ≡ put_cell
              (s.at k).line
              (s.at k).num
              (successor h w curr (s.at k).line (s.at k).num)
              s.next
    stored {next'} l n e =
        let i : ℕ = (s.at k).line in
        let j : ℕ = (s.at k).num in
        let i_in : i < h = omega (arith, p.inside k job at) in
        let j_in : j < w = omega (arith, p.width k job at) in
        let computed : next_cell curr job i j ≡ some (successor h w curr i j) =
          next_cell-eq h w curr job i j b (p.width k job at) (p.height k job at) i_in j_in in
        ground (arith, computed, f.board.all_lines, f.board.all_columns i i_in)

    write-IsFilled :
        {next' : Board}
        → (s.at k).num < job.input_width
        → next'
          ≡ put_cell
              (s.at k).line
              (s.at k).num
              (successor h w curr (s.at k).line (s.at k).num)
              s.next
        → IsFilled h w curr plan
            (put_at k (record (s.at k) { num = (s.at k).num + 1 }) (record s { next = next' }))
    write-IsFilled n e = record {
      board = record {
        all_lines = ground (arith, f.board.all_lines);
        all_columns = λ i q. ground (arith, f.board.all_columns i q);
      };
      filled = λ k' job' i j at' from q passed. ground (arith, f.filled k' job' i j at' from q);
      done = λ k' job' at' c. ground (arith, f.done k' job' at');
      in_line = λ k'. ground (arith, f.in_line k', p.width k job at);
      counter =
          f.counter
          ∙ counted_below-same s.at (put_at k (record (s.at k) { num = (s.at k).num + 1 }) s).at
              (length plan) (λ a. ground arith);
    }

    line_end-IsFilled :
        (s.at k).num ≡ job.input_width
        → IsFilled h w curr plan
            (put_at k (record (s.at k) { line = (s.at k).line + 1; num = 0 }) s)
    line_end-IsFilled n = record {
      board = f.board;
      filled = λ k' job' i j at' from q passed.
          ground (arith, f.filled k' job' i j at' from q, p.width k job at);
      done = λ k' job' at' c. ground (arith, f.done k' job' at');
      in_line = λ k'. ground (arith, f.in_line k');
      counter =
          f.counter
          ∙ counted_below-same s.at
              (put_at k (record (s.at k) { line = (s.at k).line + 1; num = 0 }) s).at (length plan)
              (λ a. ground arith);
    }

    same_job : (k' : ℕ) (job' : Job) → get_elem? plan k' ≡ some job' → (k == k') ≡ true → job' ≡ job
    same_job k' job' at' e = let e' : k ≡ k' = (==_iff k k').0 e in cc (ap (get_elem? plan) e')

    count-IsFilled :
        job.ending_line < (s.at k).line
        → (s.at k).counted ≡ false
        → IsFilled h w curr plan
            (put_at k (record (s.at k) { counted = true }) (record s { finished = s.finished + 1 }))
    count-IsFilled l n = record {
      board = f.board;
      filled = λ k' job' i j at' from q passed. ground (arith, f.filled k' job' i j at' from q);
      done = λ k' job' at' c. ground (arith, f.done k' job' at', same_job k' job' at');
      in_line = λ k'. ground (arith, f.in_line k');
      counter = ground (
        arith,
        f.counter,
        get_elem?-below plan k job at,
        counted_below-put s.at (put_at k (record (s.at k) { counted = true }) s).at k (length plan)
            (λ a. ground arith) n,
      );
    }

  pub Step-IsFilled :
      {s t : Round} → Step curr plan s t → IsFilled h w curr plan s → IsFilled h w curr plan t
  Step-IsFilled (write k at l n e r) f =
      subst (IsFilled h w curr plan) (sym r) (write-IsFilled f k at n (stored f k at l n e))
  Step-IsFilled (line_end k at l n r) f =
      subst (IsFilled h w curr plan) (sym r) (line_end-IsFilled f k at n)
  Step-IsFilled (count k at l n r) f =
      subst (IsFilled h w curr plan) (sym r) (count-IsFilled f k at l n)

  pub Reach-IsFilled :
      {s t : Round} → Reach curr plan s t → IsFilled h w curr plan s → IsFilled h w curr plan t
  Reach-IsFilled here f = f
  Reach-IsFilled (later r st) f = Step-IsFilled st (Reach-IsFilled r f)
