-- ===== src/Sched/Picked.antt =====
-- Whom `schedule` picks: realtime tasks first, then short tasks, then the others, and of each kind
-- the best priority.
use operation_systems.Common.{
  ℕ, ◌+◌, ◌≤◌, ◌<◌, ◌≡◌, ◌≢◌, ◌∙◌, ◌⊎◌, refl, sym, ap, inl, inr, Bool, true, false, Bool-cases,
  Option, some, none, not, List, [], ◌∷◌, arith, ltb, ◌==◌, ltb→lt, if◌then◌else◌,
}
use operation_systems.Sched.Task.{Task, is_short, queue_index}
use operation_systems.Sched.Queue.{Rq, PrioArray, is_empty}
use operation_systems.Sched.Pick.{first, next_queue, switch_arrays, pick_next}
use operation_systems.Sched.Consistent.{IsConsistent, occurs, here}
use operation_systems.Sched.Invariant.{IsValid, location, location_in, queued-lt}
use operation_systems.Sched.Preserved.{if-IsValid}

-- What `sched_find_first_bit` of the architecture promises.
pub record IsFirstBit (find_first_bit : (ℕ → Bool) → ℕ) : Type 0 where
  pub below : (bitmap : ℕ → Bool) (j : ℕ) → j < find_first_bit bitmap → bitmap j ≡ false
  pub found :
      (bitmap : ℕ → Bool) → find_first_bit bitmap < 140 → bitmap (find_first_bit bitmap) ≡ true
  pub bounded : (bitmap : ℕ → Bool) → find_first_bit bitmap ≤ 140

-- The order in which tasks are to run, least first: realtime tasks by their priority, then short
-- tasks by theirs, then all others by theirs.
abbrev pub rank : Task → ℕ
rank t =
    if is_short t.policy
    then 100 + t.short_prio
    else if ltb t.prio 100
    then t.prio
    else 240 + t.prio

-- Tasks that may be picked: those in the active array and the short ones.
abbrev pub IsCandidate : Rq → ℕ → Type 0
IsCandidate rq q = ((rq.task q).array ≡ some rq.active) ⊎ ((rq.task q).array ≡ some rq.short_pr)

head-occurs : (p : ℕ) (q : List ℕ) → first q ≡ some p → occurs p q ≢ 0
head-occurs p [] e = cc
head-occurs p (x ∷ q) e = ground arith

occurs-nonempty : (p : ℕ) (q : List ℕ) → occurs p q ≢ 0 → is_empty q ≡ false
occurs-nonempty p [] h = absurd (h refl)
occurs-nonempty p (x ∷ q) h = refl

nonempty-first : (q : List ℕ) → is_empty q ≡ false → (p : ℕ) × (first q ≡ some p)
nonempty-first [] e = cc
nonempty-first (p ∷ q) e = (p, refl)

here-place : (place : Option (ℕ × ℕ)) (i j : ℕ) → here place i j ≢ 0 → place ≡ some (i, j)
here-place none i j h = absurd (h refl)
here-place (some (a, k)) i j h = ground arith

here_self : (i j : ℕ) → here (some (i, j)) i j ≢ 0
here_self i j = ground arith

module _ {arrays : ℕ → PrioArray} {place : ℕ → Option (ℕ × ℕ)} (c : IsConsistent arrays place) where
  head-place : (p i j : ℕ) → first ((arrays i).queue j) ≡ some p → place p ≡ some (i, j)
  head-place p i j e =
      here-place (place p) i j (λ z. head-occurs p ((arrays i).queue j) e (c.placed p i j ∙ z))

  place-bit : (p i j : ℕ) → place p ≡ some (i, j) → (arrays i).bitmap j ≡ true
  place-bit p i j e =
      c.bits i j (c.ranged p i j e)
      ∙ ap not (
          occurs-nonempty p ((arrays i).queue j)
            (λ z. here_self i j (ap (λ l. here l i j) (sym e) ∙ sym (c.placed p i j) ∙ z)))

  bit-head :
      (i j : ℕ)
      → j < 140
      → (arrays i).bitmap j ≡ true
      → (p : ℕ) × (first ((arrays i).queue j) ≡ some p)
  bit-head i j small e = nonempty-first ((arrays i).queue j) (ground (arith, c.bits i j small, e))

module _ (find_first_bit : (ℕ → Bool) → ℕ) (laws : IsFirstBit find_first_bit) (rq : Rq)
    (v : IsValid rq) where
  -- The index of the first nonempty queue of an array.
  abbrev lowest : ℕ → ℕ
  lowest i = find_first_bit (rq.arrays i).bitmap

  place :
      (q i : ℕ)
      → (rq.task q).array ≡ some i
      → location (rq.task q) ≡ some (i, queue_index (rq.task q))
  place q i e = ap (λ a. location_in a (queue_index (rq.task q))) e

  lowest-le : (q i : ℕ) → (rq.task q).array ≡ some i → lowest i ≤ queue_index (rq.task q)
  lowest-le q i e = elim (Bool-cases (ltb (queue_index (rq.task q)) (lowest i))) [
    | inl lt ↦ cc (
      laws.below (rq.arrays i).bitmap (queue_index (rq.task q)) (ltb→lt _ _ lt),
      place-bit v.linked q i (queue_index (rq.task q)) (place q i e),
    )
    | inr ge ↦ ground arith
  ]

  -- The first task of the first nonempty queue of an array, where there is one.
  lowest_head :
      (i : ℕ)
      → lowest i < 140
      → (p : ℕ) × (first ((rq.arrays i).queue (lowest i)) ≡ some p)
        × ((rq.task p).array ≡ some i)
        × (queue_index (rq.task p) ≡ lowest i)
  lowest_head i h =
      let (p, e) = bit-head v.linked i (lowest i) h (laws.found (rq.arrays i).bitmap h) in
      let at : location (rq.task p) ≡ some (i, lowest i) = head-place v.linked p i (lowest i) e in
      (
        p,
        e,
        (split-location (rq.task p) i (lowest i) at).0,
        (split-location (rq.task p) i (lowest i) at).1,
      )
    where
      split-location :
          (t : Task) (i j : ℕ) → location t ≡ some (i, j) → (t.array ≡ some i) × (queue_index t ≡ j)
      split-location t i j at = ground (arith, at)

  active-ordinary :
      (q : ℕ) → (rq.task q).array ≡ some rq.active → is_short (rq.task q).policy ≡ false
  active-ordinary q e = ground (arith, v.sided q rq.active e, v.active_apart)

  short-short : (q : ℕ) → (rq.task q).array ≡ some rq.short_pr → is_short (rq.task q).policy ≡ true
  short-short q e = ground (arith, v.sided q rq.short_pr e)

  -- The best candidate: the first task of the queue that the code looks into.
  abbrev pub IsBest : ℕ → Type 0
  IsBest p =
      (first (next_queue find_first_bit (rq.arrays rq.active) (rq.arrays rq.short_pr)) ≡ some p)
      × IsCandidate rq p
      × ((q : ℕ) → IsCandidate rq q → rank (rq.task p) ≤ rank (rq.task q))

  IsBest-realtime : lowest rq.active < 100 → (p : ℕ) × IsBest p
  IsBest-realtime h =
      let (p, e, at, k) = lowest_head rq.active (omega arith) in
      let plain = active-ordinary p at in (p, (ground (arith, e), inl at, best p plain k))
    where
      best :
          (p : ℕ)
          → is_short (rq.task p).policy ≡ false
          → queue_index (rq.task p) ≡ lowest rq.active
          → (q : ℕ) → IsCandidate rq q
          → rank (rq.task p) ≤ rank (rq.task q)
      best p plain k q (inl c) =
          ground (arith, plain, k, h, lowest-le q rq.active c, active-ordinary q c)
      best p plain k q (inr c) = ground (arith, plain, k, h, short-short q c)

  IsBest-short : 100 ≤ lowest rq.active → lowest rq.short_pr < 140 → (p : ℕ) × IsBest p
  IsBest-short no_rt h =
      let (p, e, at, k) = lowest_head rq.short_pr h in
      (p, (ground (arith, e), inr at, best p (short-short p at) k))
    where
      best :
          (p : ℕ)
          → is_short (rq.task p).policy ≡ true
          → queue_index (rq.task p) ≡ lowest rq.short_pr
          → (q : ℕ) → IsCandidate rq q
          → rank (rq.task p) ≤ rank (rq.task q)
      best p short k q (inl c) =
          ground (arith, short, k, h, no_rt, lowest-le q rq.active c, active-ordinary q c)
      best p short k q (inr c) =
          ground (arith, short, k, lowest-le q rq.short_pr c, short-short q c)

  IsBest-other :
      100 ≤ lowest rq.active
      → 140 ≤ lowest rq.short_pr
      → lowest rq.active < 140
      → (p : ℕ) × IsBest p
  IsBest-other no_rt no_short h =
      let (p, e, at, k) = lowest_head rq.active h in
      (p, (ground (arith, e), inl at, best p (active-ordinary p at) k))
    where
      best :
          (p : ℕ)
          → is_short (rq.task p).policy ≡ false
          → queue_index (rq.task p) ≡ lowest rq.active
          → (q : ℕ) → IsCandidate rq q
          → rank (rq.task p) ≤ rank (rq.task q)
      best p plain k q (inl c) =
          ground (arith, plain, k, no_rt, lowest-le q rq.active c, active-ordinary q c)
      best p plain k q (inr c) =
          absurd (omega (arith, lowest-le q rq.short_pr c, queued-lt q rq.short_pr rq v c))

  pub next_queue-IsBest : (r : ℕ) → IsCandidate rq r → (p : ℕ) × IsBest p
  next_queue-IsBest r c = elim (Bool-cases (ltb (lowest rq.active) 100)) [
    | inl rt ↦ IsBest-realtime (ltb→lt _ _ rt)
    | inr no_rt ↦ elim (Bool-cases (ltb (lowest rq.short_pr) 140)) [
      | inl short ↦ IsBest-short (ground arith) (ltb→lt _ _ short)
      | inr no_short ↦ IsBest-other (ground arith) (ground arith) (in_active no_short c)
    ]
  ]
    where
      in_active : ltb (lowest rq.short_pr) 140 ≡ false → IsCandidate rq r → lowest rq.active < 140
      in_active no_short (inl at) =
          omega (arith, lowest-le r rq.active at, queued-lt r rq.active rq v at)
      in_active no_short (inr at) =
          absurd
            (ground (arith, no_short, lowest-le r rq.short_pr at, queued-lt r rq.short_pr rq v at))

switch_arrays-IsValid :
    (find_first_bit : (ℕ → Bool) → ℕ) (rq : Rq)
    → IsValid rq
    → IsValid (switch_arrays find_first_bit rq)
switch_arrays-IsValid find_first_bit rq v =
    if-IsValid ((rq.arrays rq.active).nr_active == 0)
      (record rq { active = rq.expired; expired = rq.active; expired_timestamp = 0 }) rq
      (λ e. record {
        linked = v.linked;
        bounds = v.bounds;
        sided = v.sided;
        active_apart = v.expired_apart;
        expired_apart = v.active_apart;
      })
      (λ e. v)

-- On a valid run queue that counts running tasks and has one that may be picked, `schedule` finds a
-- task and never reads an empty queue; the task it takes has the least rank of all in the active
-- array (after an empty one was exchanged with the expired one) and in the short array: realtime
-- tasks first, then short ones, then all others, each by priority.
pub pick_next-best :
    (find_first_bit : (ℕ → Bool) → ℕ) (rq : Rq) (r : ℕ)
    → IsFirstBit find_first_bit
    → IsValid rq
    → rq.nr_running ≢ 0
    → IsCandidate (switch_arrays find_first_bit rq) r
    → let rq' = switch_arrays find_first_bit rq in
      (p : ℕ) × (pick_next find_first_bit rq ≡ some (p, rq'))
      × IsCandidate rq' p
      × ((q : ℕ) → IsCandidate rq' q → rank (rq'.task p) ≤ rank (rq'.task q))
unfolding pick_next
pick_next-best find_first_bit rq r laws v busy c =
    let rq' : Rq = switch_arrays find_first_bit rq in
    let (p, (e, candidate, best)) =
      next_queue-IsBest find_first_bit laws rq' (switch_arrays-IsValid find_first_bit rq v) r c in
    (p, ground (arith, busy, e), candidate, best)
