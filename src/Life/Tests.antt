-- ===== src/Life/Tests.antt =====
-- The game of life on small boards, and instances of the theorems.
use operation_systems.Common.{
  ℕ, ◌⊎◌, none, List, leb, if◌then◌else◌, ◌+◌, ◌<◌, ◌≡◌, refl, true, false, ◌&&◌, ◌||◌, ◌==◌, some,
  arith,
}
use operation_systems.Life.Cells.{
  Board, Job, put_cell, count_line, count_lines, calculate_live_neighbours, next_cell,
  calculate_next_generation_matrix,
}
use operation_systems.Life.Neighbours.{IsBoard, neighbours}
use operation_systems.Life.Plan.{Round, put_at, start, Step, write, jobs, jobs_from, thread_num}
use operation_systems.Life.Crew.{
  Crew, put_has, Move, push, pop, work, gather, Moves, still, further, IsOver, Matrices, Play,
  begin, generation,
}
use operation_systems.Life.Filled.{successor}
use operation_systems.Life.Band.{calculate_next_generation_matrix-eq}
use operation_systems.Life.Ended.{left}
use operation_systems.Life.Evolved.{evolve, run-evolve, generation-finishes, left-Moves}

-- Three cells in a row, on a board of 5 lines and 4 columns.
abbrev blinker : Board
blinker = record {
  lines = 5;
  columns = (λ i. 4);
  cell = (λ i j. i == 2 && (j == 1 || (j == 2 || j == 3)));
}

blinker-IsBoard : IsBoard 5 4 blinker
blinker-IsBoard = record { all_lines = refl; all_columns = λ i p. refl }

abbrev first_matrices : Matrices
first_matrices = record { curr = blinker; next = blinker }

-- Asked for 7 threads, the board gives work to 5.
abbrev five_jobs : List Job
five_jobs = jobs 4 5 (thread_num 5 7)

finished :
    (t : Crew) × Moves blinker five_jobs (thread_num 5 7) (gather five_jobs blinker) t
    × IsOver five_jobs (thread_num 5 7) t
finished =
    generation-finishes 5 4 7 first_matrices (gather five_jobs blinker) (omega arith) (omega arith)
      blinker-IsBoard blinker-IsBoard still

generation-finishes_example :
    (t : Crew) × Moves blinker five_jobs (thread_num 5 7) (gather five_jobs blinker) t
    × IsOver five_jobs (thread_num 5 7) t
generation-finishes_example =
    generation-finishes 5 4 7 first_matrices (gather five_jobs blinker) (omega arith) (omega arith)
      blinker-IsBoard blinker-IsBoard still

after_one : Matrices
after_one = record { curr = finished.0.round.next; next = blinker }

one_generation : Play five_jobs (thread_num 5 7) first_matrices 1 after_one
unfolding after_one
one_generation = generation begin finished.1 finished.2

run-evolve_example : after_one.curr.cell 1 2 ≡ (evolve 5 4 1 blinker).cell 1 2
run-evolve_example =
    run-evolve 5 4 7 1 first_matrices after_one (omega arith) (omega arith) blinker-IsBoard
      blinker-IsBoard one_generation 1 2 (omega arith) (omega arith)

turns_upright : (evolve 5 4 1 blinker).cell 1 2 ≡ true
unfolding evolve successor neighbours
turns_upright = refl

-- The main thread pushes the first job.
abbrev one_pushed : Crew
one_pushed = record (gather five_jobs blinker) { pushed = 1 }

first-Move : Move blinker five_jobs (thread_num 5 7) (gather five_jobs blinker) one_pushed
unfolding jobs jobs_from
first-Move = push (omega arith) refl

left-Moves_example :
    (left 4 five_jobs one_pushed + 1 ≡ left 4 five_jobs (gather five_jobs blinker))
    × ((0 < left 4 five_jobs one_pushed) ⊎ IsOver five_jobs (thread_num 5 7) one_pushed)
left-Moves_example =
    left-Moves 5 4 7 first_matrices (omega arith) (omega arith) blinker-IsBoard blinker-IsBoard
      still first-Move

-- The first worker pops the job and writes the first cell.
abbrev one_popped : Crew
one_popped = record one_pushed { popped = 1; has = put_has 0 (some 0) (λ i. none) }

abbrev one_written : Round
one_written =
    put_at 0 (record { line = 0; num = 1; counted = false })
      (record (start five_jobs blinker) { next = put_cell 0 0 false blinker })

first-Step : Step blinker five_jobs (start five_jobs blinker) one_written
unfolding jobs jobs_from next_cell calculate_live_neighbours count_lines count_line
first-Step = write 0 refl (omega arith) (omega arith) refl refl

three-Moves :
    Moves blinker five_jobs
      (thread_num 5 7)
      (gather five_jobs blinker)
      (record one_popped { round = one_written })
unfolding first-Step
three-Moves =
    further (further (further still first-Move) (pop 0 (omega arith) refl (omega arith) refl))
      (work 0 (omega arith) first-Step refl refl)

abbrev middle_lines : Job
middle_lines = record { starting_line = 1; ending_line = 3; input_width = 4; input_height = 5 }

calculate_next_generation_matrix-eq_example :
    (next' : Board) × (calculate_next_generation_matrix blinker middle_lines blinker ≡ some next')
    × IsBoard 5 4 next'
    × ((i j : ℕ)
        → j < 4
        → next'.cell i j
          ≡ (if leb 1 i && leb i 3 then successor 5 4 blinker i j else blinker.cell i j))
calculate_next_generation_matrix-eq_example =
    calculate_next_generation_matrix-eq 5 4 blinker blinker middle_lines blinker-IsBoard
      blinker-IsBoard refl refl (omega arith)
