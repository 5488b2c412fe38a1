-- ===== src/Life/Crew.antt =====
-- The main thread and the worker threads of HW3/Game.cpp and HW3/Life_Thread.cpp in one generation.
use operation_systems.Common.{
  ℕ, suc, ◌+◌, ◌<◌, ◌≡◌, Bool, true, false, Option, none, some, List, ◌==◌, if◌then◌else◌, length,
}
use operation_systems.Life.Cells.{Board, Job}
use operation_systems.Life.Plan.{Round, Step, write, line_end, count, start}

-- The job of a step, and whether the step counts it.
abbrev pub job_of : {curr : Board} {plan : List Job} {s t : Round} → Step curr plan s t → ℕ
job_of (write k e l n stored r) = k
job_of (line_end k e l n r) = k
job_of (count k e l n r) = k

abbrev pub is_count : {curr : Board} {plan : List Job} {s t : Round} → Step curr plan s t → Bool
is_count (write k e l n stored r) = false
is_count (line_end k e l n r) = false
is_count (count k e l n r) = true

-- The round, how many jobs the main thread has pushed and the workers have popped, and the job that a
-- worker has. The jobs between the two numbers are in the queue, which is first in, first out.
pub record Crew : Type 0 where
  pub round : Round
  pub pushed : ℕ
  pub popped : ℕ
  pub has : ℕ → Option ℕ

abbrev pub put_has : ℕ → Option ℕ → (ℕ → Option ℕ) → ℕ → Option ℕ
put_has i o has a = if i == a then o else has a

-- A step of one of the threads. The main thread pushes the next job. A worker that has none pops the
-- front one, or waits in `pop`; a worker that has one works on it, and asks for another when it is
-- counted.
pub data Move (curr : Board) (plan : List Job) (threads : ℕ) (s t : Crew) : Type 0 where
  push :
      s.pushed < length plan → t ≡ record s { pushed = s.pushed + 1 } → Move curr plan threads s t
  pop :
      (i : ℕ)
      → i < threads
      → s.has i ≡ none
      → s.popped < s.pushed
      → t ≡ record s { popped = s.popped + 1; has = put_has i (some s.popped) s.has }
      → Move curr plan threads s t
  work :
      (i : ℕ) {r : Round}
      → i < threads
      → (st : Step curr plan s.round r) → s.has i ≡ some (job_of st)
      → t ≡ record s { round = r; has = if is_count st then put_has i none s.has else s.has }
      → Move curr plan threads s t

-- `_step` begins with an empty queue and every worker in `pop`.
abbrev pub gather : List Job → Board → Crew
gather plan next = record { round = start plan next; pushed = 0; popped = 0; has = λ i. none }

pub data Moves (curr : Board) (plan : List Job) (threads : ℕ) (s : Crew) : Crew → Type 0 where
  still : Moves curr plan threads s s
  further :
      {t u : Crew}
      → Moves curr plan threads s t
      → Move curr plan threads t u
      → Moves curr plan threads s u

-- The matrices `curr_matrix` and `next_matrix` between two generations.
pub record Matrices : Type 0 where
  pub curr : Board
  pub next : Board

-- The main thread goes on when it has pushed all jobs and `finished_thread_counter` is `m_thread_num`.
abbrev pub IsOver : List Job → ℕ → Crew → Type 0
IsOver plan threads s = (s.pushed ≡ length plan) × (s.round.finished ≡ threads)

-- `_step` waits for that and exchanges the matrices; `run` does so as often as it is told to.
pub data Play (plan : List Job) (threads : ℕ) (m : Matrices) : ℕ → Matrices → Type 0 where
  begin : Play plan threads m 0 m
  generation :
      {n : ℕ} {a : Matrices} {s : Crew}
      → Play plan threads m n a
      → Moves a.curr plan threads (gather plan a.next) s
      → IsOver plan threads s
      → Play plan threads m (suc n) (record { curr = s.round.next; next = a.curr })
