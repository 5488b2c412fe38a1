-- ===== src/Life/Neighbours.antt =====
-- `calculate_live_neighbours` counts the live cells around a cell.
use operation_systems.Common.{
  ℕ, zero, suc, ◌+◌, ◌-◌, ◌≤◌, ◌<◌, ◌≡◌, ◌∙◌, ap, refl, ◌&&◌, some, ltb, ◌==◌, Bool-cases, inl, inr,
  if◌then◌else◌, arith,
}
use operation_systems.Life.Cells.{
  Board, visit, count_line, count_lines, highest_line, lowest_line, leftest_neighbour,
  rightest_neighbour, calculate_live_neighbours,
}

-- A board of `h` lines of `w` cells.
pub record IsBoard (h w : ℕ) (m : Board) : Type 0 where
  pub all_lines : m.lines ≡ h
  pub all_columns : (i : ℕ) → i < h → m.columns i ≡ w

-- 1 for a live cell of an `h` by `w` board, where line and column are counted from 1 and every other
-- place holds 0.
abbrev pub around : ℕ → ℕ → Board → ℕ → ℕ → ℕ
around h w m zero j = 0
around h w m (suc i) zero = 0
around h w m (suc i) (suc j) = if ltb i h && ltb j w && m.cell i j then 1 else 0

-- The live cells among the eight around line `i` and column `j`.
unfoldable pub neighbours : ℕ → ℕ → Board → ℕ → ℕ → ℕ
neighbours h w m i j =
    let at = around h w m in
    (at i j + at i (j + 1) + at i (j + 2))
    + (at (i + 1) j + at (i + 1) (j + 2))
    + (at (i + 2) j + at (i + 2) (j + 1) + at (i + 2) (j + 2))

-- How much a place counts for the neighbours of line `line` and column `num`.
abbrev counted : ℕ → ℕ → Board → ℕ → ℕ → ℕ → ℕ → ℕ
counted h w m line num i j = if i == suc line && j == suc num then 0 else around h w m i j

-- The values of a function at `left` places from the one after `j` on.
abbrev sum_over : (ℕ → ℕ) → ℕ → ℕ → ℕ
sum_over f zero j = 0
sum_over f (suc left) j = f (suc j) + sum_over f left (suc j)

sum_of_two : (f : ℕ → ℕ) (k j : ℕ) → k ≡ 2 → sum_over f k j ≡ f (suc j) + f (suc (suc j))
sum_of_two f k j e = rw e (omega arith)

sum_of_three :
    (f : ℕ → ℕ) (k j : ℕ)
    → k ≡ 3
    → sum_over f k j ≡ f (suc j) + f (suc (suc j)) + f (suc (suc (suc j)))
sum_of_three f k j e = rw e (omega arith)

sum_of_one : (f : ℕ → ℕ) (k j : ℕ) → k ≡ 1 → sum_over f k j ≡ f (suc j)
sum_of_one f k j e = rw e (omega arith)

-- Between the bounds of the code stand the places before, at and after `num`, where nothing counts
-- before the first place and behind the last one.
window :
    (f : ℕ → ℕ) (num w first last : ℕ)
    → num < w
    → f 0 ≡ 0
    → f (suc w) ≡ 0
    → first ≡ leftest_neighbour num
    → last ≡ rightest_neighbour num w
    → sum_over f (last + 1 - first) first ≡ f num + f (num + 1) + f (num + 2)
window f num zero first last p z b l r = elim p [ ]
window f zero (suc zero) first last p z b l r =
    ground (arith, sum_of_one f (last + 1 - first) first (ground arith))
window f zero (suc (suc w)) first last p z b l r =
    ground (arith, sum_of_two f (last + 1 - first) first (ground arith))
window f (suc n) (suc w) first last p z b l r = elim (Bool-cases (suc n == w)) [
  | inl e ↦ ground (arith, sum_of_two f (last + 1 - first) first (ground arith))
  | inr e ↦ ground (arith, sum_of_three f (last + 1 - first) first (ground arith))
]

module _ (h w : ℕ) (m : Board) (b : IsBoard h w m) (line num : ℕ) (line_in : line < h)
    (num_in : num < w) where
  visit-eq :
      (i j : ℕ)
      → i < h
      → j < w
      → visit m line num i j ≡ some (counted h w m line num (suc i) (suc j))
  visit-eq i j p q = ground (arith, b.all_lines, b.all_columns i p)

  abbrev span : ℕ → ℕ → ℕ → ℕ
  span i = sum_over (counted h w m line num (suc i))

  count_line-eq :
      (i left j : ℕ) → i < h → j + left ≤ w → count_line m line num i left j ≡ some (span i left j)
  unfolding count_line
  count_line-eq i zero j p q = refl
  count_line-eq i (suc left) j p q =
      rw (visit-eq i j p (omega arith), count_line-eq i left (suc j) p (omega arith))

  abbrev spans : ℕ → ℕ → ℕ → ℕ → ℕ
  spans left i columns j = sum_over (λ k. sum_over (counted h w m line num k) columns j) left i

  count_lines-eq :
      (left i columns j : ℕ)
      → i + left ≤ h
      → j + columns ≤ w
      → count_lines m line num left i columns j ≡ some (spans left i columns j)
  unfolding count_lines
  count_lines-eq zero i columns j p q = refl
  count_lines-eq (suc left) i columns j p q = rw (
    count_line-eq i columns j (omega arith) q,
    count_lines-eq left (suc i) columns j (omega arith) q,
  )

  -- One line of the neighbourhood, and all three.
  abbrev line_sum : ℕ → ℕ
  line_sum k =
      counted h w m line num k num
      + counted h w m line num k (num + 1)
      + counted h w m line num k (num + 2)

  counted-first : (k : ℕ) → counted h w m line num k 0 ≡ 0
  counted-first zero = ground arith
  counted-first (suc k) = ground arith

  counted-last : (k : ℕ) → counted h w m line num k (suc w) ≡ 0
  counted-last zero = ground arith
  counted-last (suc k) = ground arith

  line_sum-eq :
      (k : ℕ)
      → sum_over
          (counted h w m line num k)
          (rightest_neighbour num w + 1 - leftest_neighbour num)
          (leftest_neighbour num)
        ≡ line_sum k
  line_sum-eq k =
      window (counted h w m line num k) num w _ _ num_in (counted-first k) (counted-last k) refl
        refl

  spans-eq :
      (left top : ℕ)
      → spans left top
          (rightest_neighbour num w + 1 - leftest_neighbour num)
          (leftest_neighbour num)
        ≡ sum_over line_sum left top
  spans-eq zero top = refl
  spans-eq (suc left) top = rw (line_sum-eq (suc top), spans-eq left (suc top))

  line_sum-first : line_sum 0 ≡ 0
  line_sum-first = omega (arith, counted-zero num, counted-zero (num + 1), counted-zero (num + 2))
    where
      counted-zero : (k : ℕ) → counted h w m line num 0 k ≡ 0
      counted-zero k = ground arith

  line_sum-last : line_sum (suc h) ≡ 0
  line_sum-last = omega (arith, counted-end num, counted-end (num + 1), counted-end (num + 2))
    where
      counted-end : (k : ℕ) → counted h w m line num (suc h) k ≡ 0
      counted-end zero = ground arith
      counted-end (suc k) = ground arith

-- Leaving the middle place out.
middle_out :
    (g : ℕ → ℕ → ℕ) (i j : ℕ)
    → let c : ℕ → ℕ → ℕ = λ a b. if a == suc i && b == suc j then 0 else g a b in
      (c i j + c i (j + 1) + c i (j + 2))
        + (c (i + 1) j + c (i + 1) (j + 1) + c (i + 1) (j + 2))
        + (c (i + 2) j + c (i + 2) (j + 1) + c (i + 2) (j + 2))
      ≡ (g i j + g i (j + 1) + g i (j + 2))
        + (g (i + 1) j + g (i + 1) (j + 2))
        + (g (i + 2) j + g (i + 2) (j + 1) + g (i + 2) (j + 2))
middle_out g i j = ground arith

-- On a board of `h` lines of `w` cells, the loops of `calculate_live_neighbours` stay in range, and
-- count the live ones among the eight cells around.
pub calculate_live_neighbours-eq :
    (h w : ℕ) (m : Board) (i j : ℕ)
    → IsBoard h w m
    → i < h
    → j < w
    → calculate_live_neighbours i j w h m ≡ some (neighbours h w m i j)
unfolding calculate_live_neighbours neighbours
calculate_live_neighbours-eq h w m i j b p q =
    let left : ℕ = leftest_neighbour j in
    let columns : ℕ = rightest_neighbour j w + 1 - left in
    let top : ℕ = highest_line i in
    let lines : ℕ = lowest_line i h + 1 - top in
    count_lines-eq h w m b i j p q lines top columns left (ground arith) (ground arith)
    ∙ ap some (
        spans-eq h w m b i j p q lines top
        ∙ window (line_sum h w m b i j p q) i h top (lowest_line i h) p
            (line_sum-first h w m b i j p q) (line_sum-last h w m b i j p q) (ground arith) refl
        ∙ middle_out (around h w m) i j)
