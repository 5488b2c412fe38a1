-- ===== src/Life/Ended.antt =====
-- The worker threads finish every generation.
use operation_systems.Common.{
  ℕ, zero, suc, ◌+◌, ◌-◌, ◌≤◌, ◌<◌, ◌⊎◌, ◌≡◌, ◌≢◌, ◌∙◌, ap, sym, refl, some, none, Option, List,
  ltb, ◌==◌, inl, inr, Bool-cases, arith, length,
}
use operation_systems.Life.Cells.{Board, Job}
use operation_systems.Life.Neighbours.{IsBoard}
use operation_systems.Life.Crew.{Crew, Move, push, pop, work, Moves, still, further, IsOver}
use operation_systems.Life.Filled.{IsPlan, IsFilled, Reach-IsFilled}
use operation_systems.Life.Finished.{
  remaining, remaining-Step, Step-of_job, some_uncounted, all_counted,
}
use operation_systems.Life.Manned.{IsManned, Move-IsManned, Moves-Reach}

-- The steps of all threads that are left in a generation: the pushes, the pops, and the work on the jobs.
abbrev pub left : ℕ → List Job → Crew → ℕ
left w plan s = (length plan - s.pushed) + (length plan - s.popped) + remaining w plan s.round.at

prepend :
    {curr : Board} {plan : List Job} {threads : ℕ} {s t u : Crew}
    → Move curr plan threads s t
    → Moves curr plan threads t u
    → Moves curr plan threads s u
prepend mv still = further still mv
prepend mv (further r mv') = further (prepend mv r) mv'

option-cases : (o : Option ℕ) → (o ≡ none) ⊎ ((k : ℕ) × (o ≡ some k))
option-cases none = inl refl
option-cases (some k) = inr (k, refl)

module _ (h w : ℕ) (curr : Board) (plan : List Job) (threads : ℕ) (p : IsPlan h w plan) where
  pub left-Move :
      {s t : Crew}
      → IsManned plan threads s
      → Move curr plan threads s t
      → left w plan t + 1 ≡ left w plan s
  left-Move m (push q e) = rw e (omega arith)
  left-Move m (pop i q free r e) = rw e (omega (arith, m.pushed_le))
  left-Move m (work i q st mine e) = rw e (omega (arith, remaining-Step h w curr plan p st))

  module _ (b : IsBoard h w curr) (workers : 0 < threads) where
    work-of_job :
        {s : Crew}
        → IsFilled h w curr plan s.round
        → IsManned plan threads s
        → (i k : ℕ) → i < threads
        → s.has i ≡ some k
        → (t : Crew) × Move curr plan threads s t
    work-of_job f m i k i_in has =
        let (below, u) = m.open_job i k has in
        let (r, st, e) =
          Step-of_job h w curr plan p b f k (omega (arith, m.popped_le, m.pushed_le)) u in
        (_, work i i_in st (has ∙ ap some (sym e)) refl)

    -- With every job pushed and popped, the worker of one that is not counted can go on.
    last_work :
        {s : Crew}
        → IsFilled h w curr plan s.round
        → IsManned plan threads s
        → s.popped ≡ length plan
        → s.round.finished ≢ length plan
        → (t : Crew) × Move curr plan threads s t
    last_work {s} f m popped open_jobs =
        let (k, below, u) =
          some_uncounted s.round.at (length plan) (λ e. open_jobs (f.counter ∙ e)) in
        let (i, i_in, has) = m.manned k (omega arith) u in work-of_job f m i k i_in has

    -- While the main thread waits or pushes, some thread can make a step.
    pub Move-of_open :
        {s : Crew}
        → IsFilled h w curr plan s.round
        → IsManned plan threads s
        → s.round.finished ≢ length plan
        → (t : Crew) × Move curr plan threads s t
    Move-of_open {s} f m open_jobs = elim (Bool-cases (ltb s.pushed (length plan))) [
      | inl more ↦ (_, push (ground arith) refl)
      | inr all_pushed ↦ elim (option-cases (s.has 0)) [
        | inl free ↦ elim (Bool-cases (ltb s.popped s.pushed)) [
          | inl waiting ↦ (_, pop 0 workers free (ground arith) refl)
          | inr all_popped ↦ last_work f m (ground (arith, m.popped_le, m.pushed_le)) open_jobs
        ]
        | inr (k, has) ↦ work-of_job f m 0 k workers has
      ]
    ]

    -- If every job is counted, the main thread has pushed them all.
    all_pushed :
        {s : Crew}
        → IsFilled h w curr plan s.round
        → IsManned plan threads s
        → s.round.finished ≡ length plan
        → s.pushed ≡ length plan
    all_pushed {s} f m done = elim (Bool-cases (ltb s.pushed (length plan))) [
      | inl more ↦ absurd (
          ground (
            arith,
            all_counted s.round.at (length plan) s.pushed (sym f.counter ∙ done) (ground arith),
            m.fresh s.pushed m.popped_le,
          ))
      | inr all ↦ ground (arith, m.pushed_le)
    ]

    Move-IsFilled :
        {s t : Crew}
        → Move curr plan threads s t
        → IsFilled h w curr plan s.round
        → IsFilled h w curr plan t.round
    Move-IsFilled mv f = Reach-IsFilled h w curr plan b p (Moves-Reach (further still mv)) f

    pub over-of_left :
        {s : Crew}
        → IsFilled h w curr plan s.round
        → IsManned plan threads s
        → left w plan s ≡ 0
        → IsOver plan (length plan) s
    over-of_left {s} f m none_left = elim (Bool-cases (s.round.finished == length plan)) [
      | inl e ↦
          let done : s.round.finished ≡ length plan = ground arith in (all_pushed f m done, done)
      | inr e ↦
          let (t, mv) = Move-of_open f m (ground arith) in absurd (omega (arith, left-Move m mv))
    ]

    pub finish :
        (n : ℕ) (s : Crew)
        → IsFilled h w curr plan s.round
        → IsManned plan threads s
        → left w plan s ≤ n
        → (t : Crew) × Moves curr plan threads s t × IsOver plan (length plan) t
    finish zero s f m bound = (s, still, over-of_left f m (omega arith))
    finish (suc n) s f m bound = elim (Bool-cases (s.round.finished == length plan)) [
      | inl e ↦
          let done : s.round.finished ≡ length plan = ground arith in
          (s, still, (all_pushed f m done, done))
      | inr e ↦
          let (t, mv) = Move-of_open f m (ground arith) in
          let (u, r, over) =
            finish n t (Move-IsFilled mv f) (Move-IsManned mv m) (omega (arith, left-Move m mv)) in
          (u, prepend mv r, over)
    ]
