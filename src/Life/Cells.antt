-- ===== src/Life/Cells.antt =====
-- `Life_Thread::calculate_live_neighbours` and `calculate_next_generation_matrix` of
-- HW3/Life_Thread.cpp.
use operation_systems.Common.{
  ℕ, zero, suc, ◌+◌, ◌-◌, Bool, true, false, ◌&&◌, ◌||◌, not, Option, none, some, ltb, ◌==◌,
  if◌then◌else◌,
}

-- A `bool_mat`: its number of lines, the length of each, and the cells.
pub record Board : Type 0 where
  pub lines : ℕ
  pub columns : ℕ → ℕ
  pub cell : ℕ → ℕ → Bool

-- `(*m)[i][j]`; `none` is an index out of range.
abbrev pub load : Board → ℕ → ℕ → Option Bool
load m i j = if ltb i m.lines && ltb j (m.columns i) then some (m.cell i j) else none

abbrev pub put_cell : ℕ → ℕ → Bool → Board → Board
put_cell i j v m = record m { cell = λ a b. if i == a && j == b then v else m.cell a b }

abbrev pub store : Board → ℕ → ℕ → Bool → Option Board
store m i j v = if ltb i m.lines && ltb j (m.columns i) then some (put_cell i j v m) else none

abbrev pub count_bit : Option Bool → Option ℕ
count_bit none = none
count_bit (some b) = some (if b then 1 else 0)

abbrev pub add_counts : Option ℕ → Option ℕ → Option ℕ
add_counts none b = none
add_counts (some a) none = none
add_counts (some a) (some b) = some (a + b)

-- The cell whose neighbours are counted, and the size that the job gives.
module _ (m : Board) (line num : ℕ) where
  -- The body of the inner loop.
  abbrev pub visit : ℕ → ℕ → Option ℕ
  visit i j = if i == line && j == num then some 0 else count_bit (load m i j)

  -- The inner loop from column `j` on, with `left` columns to go.
  unfoldable pub count_line : ℕ → ℕ → ℕ → Option ℕ
  count_line i zero j = some 0
  count_line i (suc left) j = add_counts (visit i j) (count_line i left (suc j))

  -- The outer loop from line `i` on, for the columns from `j` on.
  unfoldable pub count_lines : ℕ → ℕ → ℕ → ℕ → Option ℕ
  count_lines zero i columns j = some 0
  count_lines (suc left) i columns j =
      add_counts (count_line i columns j) (count_lines left (suc i) columns j)

abbrev pub highest_line : ℕ → ℕ
highest_line line = if not (line == 0) then line - 1 else line

abbrev pub lowest_line : ℕ → ℕ → ℕ
lowest_line line input_height = if line == input_height - 1 then line else line + 1

abbrev pub leftest_neighbour : ℕ → ℕ
leftest_neighbour num = if num == 0 then 0 else num - 1

-- The code leaves this unset at column 0 of a board of width 1, before the last test sets it.
abbrev pub rightest_neighbour : ℕ → ℕ → ℕ
rightest_neighbour num input_width = if num == input_width - 1 then num else num + 1

unfoldable pub calculate_live_neighbours : ℕ → ℕ → ℕ → ℕ → Board → Option ℕ
calculate_live_neighbours line num input_width input_height m =
    let top = highest_line line in
    let left = leftest_neighbour num in
    count_lines m line num (lowest_line line input_height + 1 - top) top
      (rightest_neighbour num input_width + 1 - left) left

pub record Job : Type 0 where
  pub starting_line : ℕ
  pub ending_line : ℕ
  pub input_width : ℕ
  pub input_height : ℕ

-- What is stored in `next_matrix` for a cell.
abbrev pub rule : Bool → ℕ → Bool
rule true n = n == 2 || n == 3
rule false n = n == 3

abbrev pub apply_rule : Option Bool → Option ℕ → Option Bool
apply_rule none n = none
apply_rule (some b) none = none
apply_rule (some b) (some n) = some (rule b n)

unfoldable pub next_cell : Board → Job → ℕ → ℕ → Option Bool
next_cell curr job line num =
    apply_rule (load curr line num)
      (calculate_live_neighbours line num job.input_width job.input_height curr)

abbrev pub store_next : Board → ℕ → ℕ → Option Bool → Option Board
store_next next line num none = none
store_next next line num (some v) = store next line num v

module _ (curr : Board) (job : Job) where
  -- The inner loop of `calculate_next_generation_matrix`, from a column on.
  unfoldable pub fill_line : ℕ → ℕ → ℕ → Board → Option Board
  fill_line line zero num next = some next
  fill_line line (suc left) num next =
      elim (store_next next line num (next_cell curr job line num)) [
        | none ↦ none
        | some next' ↦ fill_line line left (suc num) next'
      ]

  -- The outer loop, from a line on.
  unfoldable pub fill_lines : ℕ → ℕ → Board → Option Board
  fill_lines zero line next = some next
  fill_lines (suc left) line next = elim (fill_line line job.input_width 0 next) [
    | none ↦ none
    | some next' ↦ fill_lines left (suc line) next'
  ]

  unfoldable pub calculate_next_generation_matrix : Board → Option Board
  calculate_next_generation_matrix next =
      fill_lines (job.ending_line + 1 - job.starting_line) job.starting_line next
