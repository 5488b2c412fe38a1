-- ===== src/Fork/Unused.antt =====
-- `get_pid` ends, and gives a number that no task has, if there is one.
use operation_systems.Common.{
  ℕ, zero, suc, ◌+◌, ◌-◌, ◌≤◌, ◌<◌, ◌≡◌, ◌≢◌, ◌∙◌, ap, refl, true, false, Option, some, List, leb,
  ◌==◌, inl, inr, ◌⊎◌, Bool-cases, if-all, if◌then◌else◌, arith, ==_iff,
}
use mathlib.Core.Path.{subst}
use operation_systems.Fork.Pids.{Ids, Cursor, pid_max, too_large, pass, advance, repeat, get_pid}
use operation_systems.Fork.Passed.{taken, IsClear, Passed, pass-Passed}

-- How many numbers are left to try up to the one last given.
abbrev pub left_to : ℕ → ℕ → ℕ
left_to begin n = if leb n begin then begin - n else (32768 - n) + (begin - 300)

-- The numbers after `begin`, up to `n`, are taken.
abbrev pub IsTried : ℕ → List Ids → ℕ → Type 0
IsTried begin tasks n =
    (m : ℕ) → 300 ≤ m → m < 32768 → left_to begin n < left_to begin m → taken m tasks ≡ true

abbrev pub IsFull : ℕ → List Ids → Type 0
IsFull begin tasks = (m : ℕ) → 300 ≤ m → m < 32768 → m ≢ begin → taken m tasks ≡ true

-- What a call gives: a free number, or 0 as there is none.
unfoldable pub Chosen : ℕ → List Ids → Option (ℕ × Cursor) → Type 0
Chosen begin tasks answer =
    (n : ℕ) × (c : Cursor) × (answer ≡ some (n, c))
    × (((n ≡ 0) × IsFull begin tasks)
        ⊎ ((taken n tasks ≡ false)
            × (300 ≤ n)
            × (n < 32768)
            × (c.last_pid ≡ n)
            × (c.next_safe ≤ 32768)
            × IsClear tasks c))

-- What `advance` is to give.
abbrev pub Advanced : ℕ → ℕ → Cursor → Type 0
Advanced begin n c =
    (300 ≤ c.last_pid)
    × (c.last_pid < 32768)
    × (c.next_safe ≤ 32768)
    × (left_to begin n ≡ suc (left_to begin c.last_pid))

left_to-suc :
    (begin n : ℕ)
    → 300 ≤ begin
    → n + 1 < 32768
    → n ≢ begin
    → left_to begin n ≡ suc (left_to begin (n + 1))
left_to-suc begin n a b c = ground arith

left_to-wraps :
    (begin n : ℕ)
    → 300 ≤ begin
    → n < 32768
    → 32768 ≤ n + 1
    → n ≢ begin
    → begin < 32768
    → left_to begin n ≡ suc (left_to begin 300)
left_to-wraps begin n a b c d e = ground arith

advance-Advanced :
    (begin n next : ℕ)
    → 300 ≤ begin
    → begin < 32768
    → 300 ≤ n
    → n < 32768
    → n ≢ begin
    → next ≤ 32768
    → Advanced begin n (advance n next)
advance-Advanced begin n next a b c d e f =
    if-all (Advanced begin n) (leb next (n + 1)) _ _
      (λ u.
        if-all (λ x. Advanced begin n (record { last_pid = x; next_safe = pid_max }))
          (too_large (n + 1)) _ _
          (λ v.
            (omega arith, omega arith, omega arith, left_to-wraps begin n a d (ground arith) e b))
          (λ v.
            let l : n + 1 < 32768 = ground arith in
            (omega arith, l, omega arith, left_to-suc begin n a l e)))
      (λ u. let l : n + 1 < 32768 = ground arith in (omega arith, l, f, left_to-suc begin n a l e))

left_to-zero : (begin n : ℕ) → 300 ≤ begin → n < 32768 → n ≢ begin → 0 < left_to begin n
left_to-zero begin n a b c = ground arith

left_to-inj :
    (begin m n : ℕ)
    → 300 ≤ begin
    → begin < 32768
    → 300 ≤ m
    → m < 32768
    → 300 ≤ n
    → n < 32768
    → left_to begin m ≡ left_to begin n
    → m ≡ n
left_to-inj begin m n a b c d e f g = ground arith

-- Going on from a number that is taken leaves those before it tried.
IsTried-on :
    (begin : ℕ) (tasks : List Ids) (n next : ℕ)
    → 300 ≤ begin
    → begin < 32768
    → 300 ≤ n
    → n < 32768
    → taken n tasks ≡ true
    → left_to begin n ≡ suc (left_to begin next)
    → IsTried begin tasks n
    → IsTried begin tasks next
IsTried-on begin tasks n next a b c d here step tried m e f g =
    elim (Bool-cases (left_to begin m == left_to begin n)) [
      | inl same ↦
          ap (λ x. taken x tasks) (left_to-inj begin m n a b e f c d ((==_iff _ _).0 same)) ∙ here
      | inr other ↦ tried m e f (ground arith)
    ]

-- At the number last given all the others are tried.
tried-IsFull :
    (begin : ℕ) (tasks : List Ids) → 300 ≤ begin → IsTried begin tasks begin → IsFull begin tasks
tried-IsFull begin tasks a tried m b c d = tried m b c (ground arith)

pub repeat-Chosen :
    (rounds begin : ℕ) (tasks : List Ids) (c : Cursor)
    → 300 ≤ begin
    → begin < 32768
    → 300 ≤ c.last_pid
    → c.last_pid < 32768
    → c.next_safe ≤ 32768
    → c.last_pid ≢ begin
    → left_to begin c.last_pid ≤ rounds
    → IsTried begin tasks c.last_pid
    → Chosen begin tasks (repeat rounds begin tasks c)
unfolding repeat Chosen Passed
repeat-Chosen zero begin tasks c a b d e f g h tried =
    absurd (omega (arith, left_to-zero begin c.last_pid a e g))
repeat-Chosen (suc rounds) begin tasks c a b d e f g h tried =
    let r = pass c.last_pid tasks c.next_safe in
    let c' = advance c.last_pid r.1 in
    let (le, same, clear) = pass-Passed c.last_pid tasks c.next_safe in
    let (low, high, safe, step) = advance-Advanced begin c.last_pid r.1 a b d e g (omega arith) in
    if-all (Chosen begin tasks) r.0 _ _
      (λ met.
        let after = IsTried-on begin tasks c.last_pid c'.last_pid a b d e (same ∙ met) step tried in
        if-all (Chosen begin tasks) (c'.last_pid == begin) _ _
          (λ u. (
            0,
            c',
            refl,
            inl (
              refl,
              tried-IsFull begin tasks a (subst (IsTried begin tasks) ((==_iff _ _).0 u) after),
            ),
          ))
          (λ u.
            repeat-Chosen rounds begin tasks c' a b low high safe (ground arith) (omega arith)
              after))
      (λ met. (c.last_pid, _, refl, inr (same ∙ met, d, e, refl, omega arith, clear met)))

-- From the number after the last, a search tries all.
search_from :
    (begin first : ℕ) (tasks : List Ids)
    → 300 ≤ begin
    → begin < 32768
    → 300 ≤ first
    → first < 32768
    → left_to begin first ≡ 32467
    → Chosen begin tasks
        (repeat pid_max begin tasks (record { last_pid = first; next_safe = pid_max }))
search_from begin first tasks a b c d e =
    repeat-Chosen pid_max begin tasks _ a b c d (omega arith) (ground arith) (omega arith)
      (λ m f g h. absurd (ground arith))

-- Where the number last given is at least 300 and those up to `next_safe` are free, `get_pid` ends. It
-- gives 0 only if every number from 300 on, but the one last given, is taken; else it gives a number from
-- 300 on that no task has, and those from it up to `next_safe` are free again.
pub get_pid-Chosen :
    (tasks : List Ids) (c : Cursor)
    → 300 ≤ c.last_pid
    → c.last_pid < 32768
    → c.next_safe ≤ 32768
    → IsClear tasks c
    → Chosen c.last_pid tasks (get_pid tasks c)
unfolding get_pid Chosen
get_pid-Chosen tasks c a b d clear =
    if-all (Chosen c.last_pid tasks) (too_large (c.last_pid + 1)) _ _
      (λ e. search_from c.last_pid 300 tasks a b (omega arith) (omega arith) (ground arith))
      (λ e.
        if-all (Chosen c.last_pid tasks) (leb c.next_safe (c.last_pid + 1)) _ _
          (λ f.
            search_from c.last_pid (c.last_pid + 1) tasks a b (omega arith) (ground arith)
              (ground arith))
          (λ f. (
            c.last_pid + 1,
            _,
            refl,
            inr (
              clear (c.last_pid + 1) (omega arith) (ground arith),
              omega arith,
              ground arith,
              refl,
              d,
              λ n l m. clear n (omega arith) m,
            ),
          )))
