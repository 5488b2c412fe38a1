-- ===== src/Life/Plan.antt =====
-- The jobs of `Game::_step` of HW3/Game.cpp, and what the threads do with them in one generation.
use operation_systems.Common.{
  ℕ, zero, suc, ◌+◌, ◌-◌, ◌/◌, ◌<◌, ◌≤◌, ◌≡◌, Bool, true, false, Option, none, some, List, [], ◌∷◌,
  ◌==◌, leb, if◌then◌else◌, get_elem?,
}
use operation_systems.Life.Cells.{Board, Job, next_cell, store_next}

-- `m_thread_num` as `_init_game` leaves it.
abbrev pub thread_num : ℕ → ℕ → ℕ
thread_num input_height asked = if leb input_height asked then input_height else asked

abbrev pub divider : ℕ → ℕ → ℕ
divider input_height threads = if input_height / threads == 0 then 1 else input_height / threads

module _ (width height step : ℕ) where
  abbrev pub make_job : ℕ → ℕ → Job
  make_job first last = record {
    starting_line = first;
    ending_line = last;
    input_width = width;
    input_height = height;
  }

  -- The loop over `i` with `left` rounds to go, and the job behind it.
  unfoldable pub jobs_from : ℕ → ℕ → List Job
  jobs_from zero line_counter = make_job line_counter (height - 1) ∷ []
  jobs_from (suc left) line_counter =
      make_job line_counter (line_counter + step - 1) ∷ jobs_from left (line_counter + step)

-- What `_step` pushes for `threads` threads.
unfoldable pub jobs : ℕ → ℕ → ℕ → List Job
jobs width height threads = jobs_from width height (divider height threads) (threads - 1) 0

-- How far a job is: the next cell, and whether it was counted in `finished_thread_counter`.
pub record Progress : Type 0 where
  pub line : ℕ
  pub num : ℕ
  pub counted : Bool

-- The matrix that is written, the progress of each job, and `finished_thread_counter`.
pub record Round : Type 0 where
  pub next : Board
  pub at : ℕ → Progress
  pub finished : ℕ

abbrev pub put_at : ℕ → Progress → Round → Round
put_at k p s = record s { at = λ a. if k == a then p else s.at a }

-- A step of the thread that has job `k`: one round of the inner loop, the end of one of its lines, or
-- the entry in `finished_thread_counter`, which is made under the lock and so in one step. Which thread
-- has which job is told by `Crew`.
pub data Step (curr : Board) (plan : List Job) (s t : Round) : Type 0 where
  write :
      (k : ℕ) {job : Job} {next' : Board}
      → get_elem? plan k ≡ some job
      → (s.at k).line ≤ job.ending_line
      → (s.at k).num < job.input_width
      → store_next s.next (s.at k).line (s.at k).num (next_cell curr job (s.at k).line (s.at k).num)
        ≡ some next'
      → t ≡ put_at k (record (s.at k) { num = (s.at k).num + 1 }) (record s { next = next' })
      → Step curr plan s t
  line_end :
      (k : ℕ) {job : Job}
      → get_elem? plan k ≡ some job
      → (s.at k).line ≤ job.ending_line
      → (s.at k).num ≡ job.input_width
      → t ≡ put_at k (record (s.at k) { line = (s.at k).line + 1; num = 0 }) s
      → Step curr plan s t
  count :
      (k : ℕ) {job : Job}
      → get_elem? plan k ≡ some job
      → job.ending_line < (s.at k).line
      → (s.at k).counted ≡ false
      → t ≡ put_at k (record (s.at k) { counted = true }) (record s { finished = s.finished + 1 })
      → Step curr plan s t

-- The start of job `k`.
abbrev pub start_line : Option Job → ℕ
start_line none = 0
start_line (some job) = job.starting_line

abbrev pub start : List Job → Board → Round
start plan next = record {
  next = next;
  at = λ k. record { line = start_line (get_elem? plan k); num = 0; counted = false };
  finished = 0;
}

pub data Reach (curr : Board) (plan : List Job) (s : Round) : Round → Type 0 where
  here : Reach curr plan s s
  later : {t u : Round} → Reach curr plan s t → Step curr plan t u → Reach curr plan s u
