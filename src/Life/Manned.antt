-- ===== src/Life/Manned.antt =====
-- What holds of the worker threads and their jobs while a generation runs.
use operation_systems.Common.{
  ℕ, ◌+◌, ◌≤◌, ◌<◌, ◌≡◌, ◌∙◌, ap, refl, sym, true, false, ◌&&◌, none, some, List, ◌==◌, inl, inr,
  Bool-cases, ==_iff, if◌then◌else◌, arith, length,
}
use mathlib.Core.Path.{subst}
use operation_systems.Life.Cells.{Board, Job}
use operation_systems.Life.Plan.{Round, Step, write, line_end, count, Reach, here, later}
use operation_systems.Life.Crew.{
  Crew, job_of, is_count, put_has, Move, push, pop, work, gather, Moves, still, further,
}

-- A job that was popped and is not counted is had by one worker, and no other job is.
pub record IsManned (plan : List Job) (threads : ℕ) (s : Crew) : Type 0 where
  pub pushed_le : s.pushed ≤ length plan
  pub popped_le : s.popped ≤ s.pushed
  pub fresh : (k : ℕ) → s.popped ≤ k → (s.round.at k).counted ≡ false
  pub open_job : (i k : ℕ) → s.has i ≡ some k → (k < s.popped) × ((s.round.at k).counted ≡ false)
  pub alone : (i j k : ℕ) → s.has i ≡ some k → s.has j ≡ some k → i ≡ j
  pub manned :
      (k : ℕ)
      → k < s.popped
      → (s.round.at k).counted ≡ false
      → (i : ℕ) × (i < threads) × (s.has i ≡ some k)

pub gather-IsManned :
    (plan : List Job) (threads : ℕ) (next : Board) → IsManned plan threads (gather plan next)
gather-IsManned plan threads next = record {
  pushed_le = omega arith;
  popped_le = omega arith;
  fresh = λ k p. refl;
  open_job = λ i k e. absurd cc;
  alone = λ i j k e f. absurd cc;
  manned = λ k p e. absurd (omega arith);
}

module _ {plan : List Job} {threads : ℕ} {s : Crew} (m : IsManned plan threads s) where
  push-IsManned :
      s.pushed < length plan → IsManned plan threads (record s { pushed = s.pushed + 1 })
  push-IsManned p = record {
    pushed_le = omega arith;
    popped_le = omega (arith, m.popped_le);
    fresh = m.fresh;
    open_job = m.open_job;
    alone = m.alone;
    manned = m.manned;
  }

  pop-IsManned :
      (i : ℕ)
      → i < threads
      → s.has i ≡ none
      → s.popped < s.pushed
      → IsManned plan threads
          (record s { popped = s.popped + 1; has = put_has i (some s.popped) s.has })
  pop-IsManned i p free q = record {
    pushed_le = m.pushed_le;
    popped_le = omega arith;
    fresh = λ k h. m.fresh k (omega arith);
    open_job = λ j k e. ground (arith, e, m.open_job j k, m.fresh k);
    alone = λ j j' k e e'. ground (arith, e, e', m.alone j j' k, m.open_job j k, m.open_job j' k);
    manned = λ k h e. elim (Bool-cases (k == s.popped)) [
      | inl new ↦ (i, p, ground (arith, new))
      | inr old ↦
          let (j, j_in, has) = m.manned k (ground arith) e in (j, j_in, ground (arith, has, free))
    ];
  }

  busy-IsManned :
      (r : Round)
      → ((a : ℕ) → (r.at a).counted ≡ (s.round.at a).counted)
      → IsManned plan threads (record s { round = r })
  busy-IsManned r same = record {
    pushed_le = m.pushed_le;
    popped_le = m.popped_le;
    fresh = λ k h. same k ∙ m.fresh k h;
    open_job = λ i k e. ((m.open_job i k e).0, same k ∙ (m.open_job i k e).1);
    alone = m.alone;
    manned = λ k h e. m.manned k h (sym (same k) ∙ e);
  }

  counted-IsManned :
      (i k : ℕ) (r : Round)
      → s.has i ≡ some k
      → ((a : ℕ) → (r.at a).counted ≡ (if k == a then true else (s.round.at a).counted))
      → IsManned plan threads (record s { round = r; has = put_has i none s.has })
  counted-IsManned i k r mine counts = record {
    pushed_le = m.pushed_le;
    popped_le = m.popped_le;
    fresh = λ a h. ground (arith, counts a, m.fresh a h, m.open_job i k mine);
    open_job = λ j a e. ground (arith, e, counts a, m.open_job j a, other j a e);
    alone = λ j j' a e e'. ground (arith, e, e', m.alone j j' a);
    manned = λ a h e.
        let (j, j_in, has) = m.manned a h (ground (arith, counts a, e)) in
        (j, j_in, ground (arith, has, counts a, e, mine));
  }
    where
      other : (j a : ℕ) → put_has i none s.has j ≡ some a → (k == a) ≡ false
      other j a e = elim (Bool-cases (k == a)) [
        | inl same ↦
            let same' : k ≡ a = (==_iff k a).0 same in
            let mine' : s.has i ≡ some a = mine ∙ ap some same' in
            absurd (ground (arith, e, m.alone i j a mine'))
        | inr differ ↦ differ
      ]

module _ {curr : Board} {plan : List Job} where
  -- A step counts its own job or none.
  Step-counted :
      {s t : Round} (st : Step curr plan s t) (a : ℕ)
      → (t.at a).counted ≡ (if is_count st && job_of st == a then true else (s.at a).counted)
  Step-counted (write k e l n stored r) a = ap (λ u. (u.at a).counted) r ∙ ground arith
  Step-counted (line_end k e l n r) a = ap (λ u. (u.at a).counted) r ∙ ground arith
  Step-counted (count k e l n r) a = ap (λ u. (u.at a).counted) r ∙ ground arith

  work-IsManned :
      {threads : ℕ} {s : Crew} (m : IsManned plan threads s) (i : ℕ) {r : Round}
      (st : Step curr plan s.round r)
      → s.has i ≡ some (job_of st)
      → IsManned plan threads
          (record s { round = r; has = if is_count st then put_has i none s.has else s.has })
  work-IsManned {s = s} m i {r} (write k e l n stored q) mine =
      busy-IsManned m r (Step-counted {s = s.round} (write k e l n stored q))
  work-IsManned {s = s} m i {r} (line_end k e l n q) mine =
      busy-IsManned m r (Step-counted {s = s.round} (line_end k e l n q))
  work-IsManned {s = s} m i {r} (count k e l n q) mine =
      counted-IsManned m i k r mine (Step-counted {s = s.round} (count k e l n q))

  pub Move-IsManned :
      {threads : ℕ} {s t : Crew}
      → Move curr plan threads s t
      → IsManned plan threads s
      → IsManned plan threads t
  Move-IsManned {threads} (push p e) m = subst (IsManned plan threads) (sym e) (push-IsManned m p)
  Move-IsManned {threads} (pop i p free q e) m =
      subst (IsManned plan threads) (sym e) (pop-IsManned m i p free q)
  Move-IsManned {threads} (work i p st mine e) m =
      subst (IsManned plan threads) (sym e) (work-IsManned m i st mine)

  pub Moves-IsManned :
      {threads : ℕ} {s t : Crew}
      → Moves curr plan threads s t
      → IsManned plan threads s
      → IsManned plan threads t
  Moves-IsManned still m = m
  Moves-IsManned (further r mv) m = Move-IsManned mv (Moves-IsManned r m)

  -- What the threads do to the matrix is a run of the jobs.
  pub Moves-Reach :
      {threads : ℕ} {s t : Crew} → Moves curr plan threads s t → Reach curr plan s.round t.round
  Moves-Reach still = here
  Moves-Reach {threads} {s} (further r (push p e)) =
      subst (Reach curr plan s.round) (sym (ap (λ c. c.round) e)) (Moves-Reach r)
  Moves-Reach {threads} {s} (further r (pop i p free q e)) =
      subst (Reach curr plan s.round) (sym (ap (λ c. c.round) e)) (Moves-Reach r)
  Moves-Reach {threads} {s} (further r (work i p st mine e)) =
      subst (Reach curr plan s.round) (sym (ap (λ c. c.round) e)) (later (Moves-Reach r) st)
