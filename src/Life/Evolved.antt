-- ===== src/Life/Evolved.antt =====
-- What `run` has computed after some generations, and that a generation ends.
use operation_systems.Common.{
  ℕ, zero, suc, ◌+◌, ◌≤◌, ◌<◌, ◌≡◌, ◌∙◌, sym, refl, ◌&&◌, some, List, ltb, inl, inr, ltb→lt, ◌⊎◌,
  Bool-cases, arith, length, get_elem?,
}
use operation_systems.Life.Cells.{Board, Job}
use operation_systems.Life.Neighbours.{IsBoard, neighbours, around}
use operation_systems.Life.Plan.{Round, jobs, thread_num}
use operation_systems.Life.Crew.{
  Crew, Move, Moves, further, gather, IsOver, Matrices, Play, begin, generation,
}
use operation_systems.Life.Manned.{IsManned, gather-IsManned, Moves-IsManned, Moves-Reach}
use operation_systems.Life.Ended.{left, left-Move, over-of_left, finish}
use operation_systems.Life.Filled.{
  IsPlan, IsFilled, successor, Reach-IsFilled, start-IsFilled, get_elem?-below,
}
use operation_systems.Life.Split.{jobs-IsPlan, length-jobs, covers-jobs, covered}
use operation_systems.Life.Finished.{all_counted}

-- The board after `n` generations of the game of life.
unfoldable pub evolve : ℕ → ℕ → ℕ → Board → Board
evolve h w zero m = m
evolve h w (suc n) m = let before = evolve h w n m in record before { cell = successor h w before }

-- Two boards show the same cells.
abbrev pub Agree : ℕ → ℕ → Board → Board → Type 0
Agree h w a b = (i j : ℕ) → i < h → j < w → a.cell i j ≡ b.cell i j

around-Agree :
    (h w : ℕ) (a b : Board) → Agree h w a b → (i j : ℕ) → around h w a i j ≡ around h w b i j
around-Agree h w a b same zero j = refl
around-Agree h w a b same (suc i) zero = refl
around-Agree h w a b same (suc i) (suc j) = elim (Bool-cases (ltb i h && ltb j w)) [
  | inl e ↦ ground (arith, same i j (ground arith) (ground arith))
  | inr e ↦ ground arith
]

successor-Agree :
    (h w : ℕ) (a b : Board)
    → Agree h w a b
    → (i j : ℕ) → i < h
    → j < w
    → successor h w a i j ≡ successor h w b i j
unfolding successor neighbours
successor-Agree h w a b same i j p q =
    let n = around-Agree h w a b same in
    rw (
      same i j p q,
      n i j,
      n i (j + 1),
      n i (j + 2),
      n (i + 1) j,
      n (i + 1) (j + 2),
      n (i + 2) j,
      n (i + 2) (j + 1),
      n (i + 2) (j + 2),
    )

-- When every job is counted, every cell of the next matrix is written.
module _ (h w : ℕ) (curr : Board) (plan : List Job) (p : IsPlan h w plan) {s : Round}
    (f : IsFilled h w curr plan s) (counted : s.finished ≡ length plan) where
  filled_by :
      (i j : ℕ)
      → j < w
      → ((k : ℕ) × (job : Job) × (get_elem? plan k ≡ some job)
          × (job.starting_line ≤ i)
          × (i ≤ job.ending_line))
      → s.next.cell i j ≡ successor h w curr i j
  filled_by i j q (k, job, e, from, to) =
      let c =
        all_counted s.at (length plan) k (sym f.counter ∙ counted) (get_elem?-below plan k job e) in
      f.filled k job i j e from q (inl (omega (arith, f.done k job e c)))

thread_num-range :
    (h asked : ℕ) → 0 < h → 0 < asked → (0 < thread_num h asked) × (thread_num h asked ≤ h)
thread_num-range h asked p q = ground arith

module _ (h w asked : ℕ) (p : 0 < h) (q : 0 < asked) where
  abbrev plan_for : List Job
  plan_for = jobs w h (thread_num h asked)

  plan_for-IsPlan : IsPlan h w plan_for
  plan_for-IsPlan =
      let (a, b) = thread_num-range h asked p q in jobs-IsPlan w h (thread_num h asked) a b

  plan_for-length : length plan_for ≡ thread_num h asked
  plan_for-length = length-jobs w h (thread_num h asked) (thread_num-range h asked p q).0

  -- A finished generation has written the successor of the current matrix, whole.
  next-Agree :
      {curr : Board} {s : Round}
      → IsFilled h w curr plan_for s
      → s.finished ≡ length plan_for
      → (i j : ℕ) → i < h
      → j < w
      → s.next.cell i j ≡ successor h w curr i j
  next-Agree {curr} f e i j i_in j_in =
      let (a, b) = thread_num-range h asked p q in
      filled_by h w curr plan_for plan_for-IsPlan f e i j j_in
        (covered i plan_for (omega (arith, covers-jobs w h (thread_num h asked) i a b i_in)))

  played :
      {m m' : Matrices} (n : ℕ)
      → IsBoard h w m.curr
      → IsBoard h w m.next
      → Play plan_for (thread_num h asked) m n m'
      → IsBoard h w m'.curr × IsBoard h w m'.next × Agree h w m'.curr (evolve h w n m.curr)
  unfolding evolve
  played zero c d begin = (c, d, λ i j i_in j_in. refl)
  played {m} (suc n) c d (generation {a = a} {s = s} play r over) =
      let (c', d', same) = played n c d play in
      let f =
        Reach-IsFilled h w a.curr plan_for c' plan_for-IsPlan (Moves-Reach r)
          (start-IsFilled h w a.curr plan_for c' plan_for-IsPlan a.next d') in
      let counted : s.round.finished ≡ length plan_for = over.1 ∙ sym plan_for-length in
      (
        f.board,
        c',
        λ i j i_in j_in.
            next-Agree f counted i j i_in j_in
            ∙ successor-Agree h w a.curr (evolve h w n m.curr) same i j i_in j_in,
      )

-- On boards of `h` lines of `w` cells, with at least one line and one thread asked for, the current
-- matrix after `n` generations shows the `n`-th successor of the first one, in whatever order the
-- threads took their steps. A generation is over for the main thread when it has pushed all jobs and
-- the counter is `m_thread_num`.
pub run-evolve :
    (h w asked n : ℕ) (m m' : Matrices)
    → 0 < h
    → 0 < asked
    → IsBoard h w m.curr
    → IsBoard h w m.next
    → Play (jobs w h (thread_num h asked)) (thread_num h asked) m n m'
    → (i j : ℕ) → i < h
    → j < w
    → m'.curr.cell i j ≡ (evolve h w n m.curr).cell i j
run-evolve h w asked n m m' p q c d play i j i_in j_in =
    (played h w asked p q n c d play).2 i j i_in j_in

module _ (h w asked : ℕ) (m : Matrices) (s : Crew) (p : 0 < h) (q : 0 < asked)
    (c : IsBoard h w m.curr) (d : IsBoard h w m.next)
    (r : Moves m.curr
      (jobs w h (thread_num h asked))
      (thread_num h asked)
      (gather (jobs w h (thread_num h asked)) m.next)
      s) where
  reached-IsManned : IsManned (jobs w h (thread_num h asked)) (thread_num h asked) s
  reached-IsManned =
      Moves-IsManned r (gather-IsManned (jobs w h (thread_num h asked)) (thread_num h asked) m.next)

  reached-IsFilled : IsFilled h w m.curr (jobs w h (thread_num h asked)) s.round
  reached-IsFilled =
      let is_plan = plan_for-IsPlan h w asked p q in
      Reach-IsFilled h w m.curr (jobs w h (thread_num h asked)) c is_plan (Moves-Reach r)
        (start-IsFilled h w m.curr (jobs w h (thread_num h asked)) c is_plan m.next d)

  -- The wait for the counter to become the number of the jobs is the wait for `m_thread_num`.
  over_for :
      (t : Crew)
      → IsOver (jobs w h (thread_num h asked)) (length (jobs w h (thread_num h asked))) t
      → IsOver (jobs w h (thread_num h asked)) (thread_num h asked) t
  over_for t (pushed, done) = (pushed, done ∙ plan_for-length h w asked p q)

  -- A generation never gets stuck: from every state that the main thread and the `m_thread_num` workers
  -- can reach, they can go on to one in which all jobs are pushed and `finished_thread_counter` is
  -- `m_thread_num`, which is what the main thread waits for.
  pub generation-finishes :
      (t : Crew) × Moves m.curr (jobs w h (thread_num h asked)) (thread_num h asked) s t
      × IsOver (jobs w h (thread_num h asked)) (thread_num h asked) t
  generation-finishes =
      let (t, go_on, over) =
        finish h w m.curr (jobs w h (thread_num h asked)) (thread_num h asked)
          (plan_for-IsPlan h w asked p q) c (thread_num-range h asked p q).0
          (left w (jobs w h (thread_num h asked)) s) s reached-IsFilled reached-IsManned
          (omega arith) in
      (t, go_on, over_for t over)

  none_left-over :
      left w (jobs w h (thread_num h asked)) s ≡ 0
      → IsOver (jobs w h (thread_num h asked)) (thread_num h asked) s
  none_left-over none_left = over_for s (
      over-of_left h w m.curr (jobs w h (thread_num h asked)) (thread_num h asked)
        (plan_for-IsPlan h w asked p q) c (thread_num-range h asked p q).0 reached-IsFilled
        reached-IsManned none_left)

-- A generation ends after a number of steps that does not depend on their order: from every state that
-- is reached, each step of any thread makes the number of steps left smaller by exactly one, and when
-- none is left, the main thread's wait for `m_thread_num` is over.
pub left-Moves :
    (h w asked : ℕ) (m : Matrices) {s t : Crew}
    → 0 < h
    → 0 < asked
    → IsBoard h w m.curr
    → IsBoard h w m.next
    → Moves m.curr
        (jobs w h (thread_num h asked))
        (thread_num h asked)
        (gather (jobs w h (thread_num h asked)) m.next)
        s
    → Move m.curr (jobs w h (thread_num h asked)) (thread_num h asked) s t
    → (left w (jobs w h (thread_num h asked)) t + 1 ≡ left w (jobs w h (thread_num h asked)) s)
      × ((0 < left w (jobs w h (thread_num h asked)) t)
          ⊎ IsOver (jobs w h (thread_num h asked)) (thread_num h asked) t)
left-Moves h w asked m {s} {t} p q c d r mv = (
  left-Move h w m.curr (jobs w h (thread_num h asked)) (thread_num h asked)
      (plan_for-IsPlan h w asked p q) (reached-IsManned h w asked m s p q c d r) mv,
  elim (Bool-cases (ltb 0 (left w (jobs w h (thread_num h asked)) t))) [
    | inl more ↦ inl (ltb→lt _ _ more)
    | inr none_left ↦
        inr (none_left-over h w asked m t p q c d (further r mv) (ground (arith, none_left)))
  ],
)
