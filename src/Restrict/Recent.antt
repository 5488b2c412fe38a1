-- ===== src/Restrict/Recent.antt =====
-- What a caller of `sys_get_process_log` receives, and how much the kernel's buffer takes.
use operation_systems.Common.{
  ℕ, zero, suc, ◌+◌, ◌-◌, ◌%◌, ◌≤◌, ◌<◌, ◌≡◌, ◌∙◌, inl, inr, sym, refl, ap, Bool, ◌||◌, true, false,
  some, List, [], Bool-cases, ltb, ltb→lt, ◌∷◌, ◌++◌, arith, length, length-append, take, drop,
  drop-drop, take-append-take, take-all, length-drop, length-take,
}
use mathlib.Core.List.{append_assoc}
use native.Mathlib.Nat.{suc-add}
use operation_systems.Common.Int.{pos, ltb_ℤ}
use operation_systems.Restrict.Task.{Scr, Fai, Task, find_task_by_pid}
use operation_systems.Restrict.Calls.{Sys, Reply, collect_log, get_process_log, bytes, sizeof_fai}
use operation_systems.Restrict.Checked.{IsArmed}
use operation_systems.Restrict.Reported.{collect_log-wrapped, collect_log-early}

-- The last `size` entries of a history.
abbrev pub recent : ℕ → List Fai → List Fai
recent size hist = drop (length hist - size) hist

-- A front part is what a longer buffer begins with.
take-front : (a : ℕ) (xs ys : List Fai) → length xs ≡ a → take a (xs ++ ys) ≡ xs
take-front zero [] ys h = refl
take-front zero (x ∷ xs) ys h = absurd (omega arith)
take-front (suc a) [] ys h = absurd (omega arith)
take-front (suc a) (x ∷ xs) ys h = ap (λ l. x ∷ l) (take-front a xs ys (omega arith))

take-recent :
    (size : ℕ) (hist : List Fai) → take size (drop (length hist - size) hist) ≡ recent size hist
take-recent size hist =
    take-all size (recent size hist) (omega (arith, length-drop {0} (length hist - size) hist))

take-take-suc : (a : ℕ) (xs : List Fai) → take a (take (a + 1) xs) ≡ take a xs
take-take-suc zero xs = refl
take-take-suc (suc a) [] = rw suc-add
take-take-suc (suc a) (x ∷ xs) = rw suc-add (ap (λ l. x ∷ l) (take-take-suc a xs))

-- A request that the checks let through is answered from the two loops.
join :
    (a b k : ℕ) (xs : List Fai)
    → take a (drop k xs) ++ take b (drop (k + a) xs) ≡ take (a + b) (drop k xs)
join a b k xs =
    ap (λ l. take a (drop k xs) ++ take b l) (sym (drop-drop k a xs))
    ∙ take-append-take a b (drop k xs)

nonneg : (n : ℕ) → ltb_ℤ (pos n) (pos 0) ≡ false
nonneg n = ground arith

module _ (kmalloc : ℕ → Bool) (pid : ℕ) (size : ℕ) (s : Sys) {t : Task}
    (found : find_task_by_pid (pos pid) s.tasks ≡ some t)
    (granted : kmalloc (bytes size sizeof_fai) ≡ true) (fits : size ≤ t.log_list_size) where
  abbrev answer : List Fai → Reply
  answer es = record {
    result = pos 0;
    to_usr = es;
    overran = ltb size (length es);
    user_mem = take size es;
    sys = s;
  }

  in_range : (ltb_ℤ (pos t.log_list_size) (pos size) || ltb_ℤ (pos size) (pos 0)) ≡ false
  in_range = ground arith

  answered :
      (es : List Fai)
      → collect_log t size ≡ some es
      → get_process_log kmalloc (pos pid) (pos size) s ≡ some (answer es)
  unfolding get_process_log
  answered es e = rw (nonneg pid, found, in_range, granted, e)

  module _ {rs : List Scr} {buf hist : List Fai} (armed : IsArmed t rs buf hist) where
    n-eq : t.log_list_size ≡ length hist
    n-eq = armed.ring.counted

    length-slice : (a k : ℕ) → k + a ≤ length hist → length (take a (drop k hist)) ≡ a
    length-slice a k h = omega (arith, length-take {0} a (drop k hist), length-drop {0} k hist)

    slice-recent : take size (drop (t.log_list_size - size) hist) ≡ recent size hist
    slice-recent = ap (λ k. take size (drop (k - size) hist)) n-eq ∙ take-recent size hist

    front-recent :
        (ys : List Fai)
        → take size (take size (drop (t.log_list_size - size) hist) ++ ys) ≡ recent size hist
    front-recent ys =
        take-front size (take size (drop (t.log_list_size - size) hist)) ys
          (length-slice size (t.log_list_size - size) (omega (arith, n-eq)))
        ∙ slice-recent

    -- The two slices on either side of the seam.
    joined :
        (m : ℕ) (ys : List Fai)
        → m ≤ size
        → take (size - m) (drop (t.log_list_size - size) hist)
            ++ (take m (drop (t.log_list_size - m) hist) ++ ys)
          ≡ take size (drop (t.log_list_size - size) hist) ++ ys
    joined m ys h =
        let d : ℕ = t.log_list_size - size in
        sym (
          append_assoc (take (size - m) (drop d hist)) (take m (drop (t.log_list_size - m) hist))
            ys)
        ∙ ap (λ l. l ++ ys)
            (ap (λ k. take (size - m) (drop d hist) ++ take m (drop k hist)) (omega arith)
              ∙ join (size - m) m d hist
              ∙ ap (λ k. take k (drop d hist)) (omega arith))

    -- The answer that hands over the most recent entries, all of them stored within the buffer.
    abbrev pub exact : Reply
    exact = record {
      result = pos 0;
      to_usr = recent size hist;
      overran = false;
      user_mem = recent size hist;
      sys = s;
    }

    -- Once the log has gone round and `size` reaches from its end over its seam, at most 100 entries,
    -- the user is handed the `size` most recent refusals, with one entry past the kernel's buffer.
    get_process_log-over_seam :
        100 ≤ t.log_list_size
        → 0 < t.log_list_size % 100
        → t.log_list_size % 100 ≤ size
        → size ≤ 100
        → (es : List Fai) × (get_process_log kmalloc (pos pid) (pos size) s ≡ some (answer es))
          × ((answer es).user_mem ≡ recent size hist)
    get_process_log-over_seam round seam reach most = (
      _,
      answered _ (
          collect_log-wrapped t buf hist armed.log armed.ring size round seam reach most
          ∙ ap some (joined (t.log_list_size % 100) _ reach)),
      front-recent _,
    )

    -- Once the log has gone round, a granted request that ends off the seam, for 1 to 100 entries,
    -- stores one entry more in the kernel's buffer than it has room for.
    pub get_process_log-overrun :
        100 ≤ t.log_list_size
        → 0 < t.log_list_size % 100
        → 0 < size
        → size ≤ 100
        → (es : List Fai) × (get_process_log kmalloc (pos pid) (pos size) s ≡ some (answer es))
          × (length (answer es).to_usr ≡ size + 1)
    get_process_log-overrun round seam ask most =
        elim (Bool-cases (ltb size (t.log_list_size % 100))) [
          | inl early ↦ (
            _,
            answered _ (
                collect_log-early t buf hist armed.log armed.ring size round ask
                  (ltb→lt _ _ early)),
            length-slice (size + 1) (t.log_list_size - t.log_list_size % 100)
                (omega (arith, n-eq, ltb→lt _ _ early)),
          )
          | inr reach ↦
              let h : t.log_list_size % 100 ≤ size = ground arith in
              (
                _,
                answered _ (
                    collect_log-wrapped t buf hist armed.log armed.ring size round seam h most
                    ∙ ap some (joined (t.log_list_size % 100) _ h)),
                omega (
                  arith,
                  length-append {0} (take size (drop (t.log_list_size - size) hist))
                      (take 1 (drop (t.log_list_size - 100) hist)),
                  length-slice size (t.log_list_size - size) (omega (arith, n-eq)),
                  length-slice 1 (t.log_list_size - 100) (omega (arith, n-eq)),
                ),
              )
        ]

    -- Once the log has gone round, a granted request for fewer entries than were written since hands
    -- the user the oldest of those, not the most recent.
    pub get_process_log-early :
        100 ≤ t.log_list_size
        → 0 < size
        → size < t.log_list_size % 100
        → (es : List Fai) × (get_process_log kmalloc (pos pid) (pos size) s ≡ some (answer es))
          × ((answer es).user_mem ≡ take size (drop (t.log_list_size - t.log_list_size % 100) hist))
    get_process_log-early round ask early = (
      _,
      answered _ (collect_log-early t buf hist armed.log armed.ring size round ask early),
      take-take-suc size _,
    )
