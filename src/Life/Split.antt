-- ===== src/Life/Split.antt =====
-- The jobs of a generation split the lines of the board.
use operation_systems.Common.{
  ℕ, zero, suc, ◌+◌, ◌-◌, ◌*◌, ◌/◌, ◌≤◌, ◌<◌, ◌≡◌, ◌≢◌, refl, Bool, ◌&&◌, some, List, [], ◌∷◌, leb,
  ◌==◌, inl, inr, Bool-cases, if◌then◌else◌, arith, get_elem?, length,
}
use native.Mathlib.Nat.{mul-div-le}
use operation_systems.Life.Cells.{Job}
use operation_systems.Life.Plan.{divider, jobs_from, jobs}
use operation_systems.Life.Filled.{IsPlan}

abbrev pub has_line : ℕ → Job → Bool
has_line i job = leb job.starting_line i && leb i job.ending_line

-- How many jobs have line `i`.
abbrev pub covers : ℕ → List Job → ℕ
covers i [] = 0
covers i (job ∷ plan) = (if has_line i job then 1 else 0) + covers i plan

length-jobs_from : (w h step left c : ℕ) → length (jobs_from w h step left c) ≡ left + 1
unfolding jobs_from
length-jobs_from w h step zero c = refl
length-jobs_from w h step (suc left) c = omega (arith, length-jobs_from w h step left (c + step))

-- There is a job for each thread.
pub length-jobs : (w h n : ℕ) → 0 < n → length (jobs w h n) ≡ n
unfolding jobs
length-jobs w h n p = omega (arith, length-jobs_from w h (divider h n) (n - 1) 0)

module _ (w h step : ℕ) (positive : 0 < step) where
  covers-jobs_from :
      (i left c : ℕ)
      → i < h
      → c + left * step < h
      → covers i (jobs_from w h step left c) ≡ (if leb c i then 1 else 0)
  unfolding jobs_from
  covers-jobs_from i zero c q fits = ground arith
  covers-jobs_from i (suc left) c q fits =
      let fits' : (c + step) + left * step < h = grind arith in
      let here : c + step < h + 1 = grind arith in
      ground (arith, covers-jobs_from i left (c + step) q fits')

  jobs_from-bounds :
      (left c k : ℕ) (job : Job)
      → c + left * step < h
      → get_elem? (jobs_from w h step left c) k ≡ some job
      → (job.input_width ≡ w) × (job.input_height ≡ h) × (job.ending_line < h)
  unfolding jobs_from
  jobs_from-bounds zero c zero job fits e = ground arith
  jobs_from-bounds zero c (suc k) job fits e = absurd cc
  jobs_from-bounds (suc left) c zero job fits e =
      let here : c + step < h + 1 = grind arith in ground arith
  jobs_from-bounds (suc left) c (suc k) job fits e =
      let fits' : (c + step) + left * step < h = grind arith in
      jobs_from-bounds left (c + step) k job fits' e

divider-positive : (h n : ℕ) → 0 < divider h n
divider-positive h n = ground arith

divider-fits : (h n : ℕ) → 0 < n → n ≤ h → 0 + (n - 1) * divider h n < h
divider-fits h zero p q = absurd (omega arith)
divider-fits h (suc n) p q = elim (Bool-cases (h / suc n == 0)) [
  | inl e ↦ rw e (omega arith)
  | inr e ↦ rw e (
      let d : ℕ = h / suc n in
      let pos_d : 0 < d = ground arith in
      let below : suc n * d ≤ h = mul-div-le h (suc n) in grind arith)
]

-- A line that some job has stands in one.
pub covered :
    (i : ℕ) (plan : List Job)
    → covers i plan ≢ 0
    → (k : ℕ) × (job : Job) × (get_elem? plan k ≡ some job)
      × (job.starting_line ≤ i)
      × (i ≤ job.ending_line)
covered i [] h = absurd (h refl)
covered i (job ∷ plan) h = elim (Bool-cases (has_line i job)) [
  | inl e ↦ (0, job, refl, ground arith, ground arith)
  | inr e ↦ later (covered i plan (ground arith))
]
  where
    later :
        ((k : ℕ) × (job' : Job) × (get_elem? plan k ≡ some job')
          × (job'.starting_line ≤ i)
          × (i ≤ job'.ending_line))
        → (k : ℕ) × (job' : Job) × (get_elem? (job ∷ plan) k ≡ some job')
          × (job'.starting_line ≤ i)
          × (i ≤ job'.ending_line)
    later (k, job', e, a, b) = (suc k, job', e, a, b)

-- The jobs of `threads` threads, at least one and no more than there are lines.
pub jobs-IsPlan : (w h threads : ℕ) → 0 < threads → threads ≤ h → IsPlan h w (jobs w h threads)
unfolding jobs
jobs-IsPlan w h threads p q = record {
  width = λ k job e. (bounds k job e).0;
  height = λ k job e. (bounds k job e).1;
  inside = λ k job e. (bounds k job e).2;
}
  where
    bounds :
        (k : ℕ) (job : Job)
        → get_elem? (jobs w h threads) k ≡ some job
        → (job.input_width ≡ w) × (job.input_height ≡ h) × (job.ending_line < h)
    bounds k job e =
        jobs_from-bounds w h (divider h threads) (divider-positive h threads) (threads - 1) 0 k job
          (divider-fits h threads p q) e

-- For at least one thread and no more than there are lines, each line of the board is in exactly one job.
pub covers-jobs :
    (w h threads i : ℕ) → 0 < threads → threads ≤ h → i < h → covers i (jobs w h threads) ≡ 1
unfolding jobs
covers-jobs w h threads i p q r = ground (
  arith,
  covers-jobs_from w h (divider h threads) (divider-positive h threads) i (threads - 1) 0 r
      (divider-fits h threads p q),
)
