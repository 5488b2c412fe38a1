-- ===== src/Restrict/Checked.antt =====
-- What `syscall_check` decides, against the first matching rule of a plain list.
use operation_systems.Common.{
  ℕ, zero, suc, ◌+◌, ◌%◌, ◌^◌, ◌<◌, ◌≡◌, ◌∙◌, refl, ap, sym, inl, inr, Option, none, some, List, [],
  ◌∷◌, ◌++◌, arith, ltb, if◌then◌else◌, Bool-cases, length, get_elem?, set, drop, drop-eq-cons,
  drop-all, get_elem?-lt,
}
use mathlib.Core.Path.{subst}
use mathlib.Core.List.{append-nil}
use operation_systems.Common.Int.{ℤ, pos, negsuc, leb_ℤ, ◌==ℤ◌}
use operation_systems.Restrict.Task.{block, Scr, Fai, Task, load}
use operation_systems.Restrict.Check.{forbidden, log_forbidden, check_from, syscall_check}
use operation_systems.Restrict.Ring.{IsRing, push-IsRing}

-- The rule that refuses call `num` at a level: the first rule for `num`, if its threshold is above.
abbrev pub refusing : ℤ → ℤ → List Scr → Option Scr
refusing num level [] = none
refusing num level (e ∷ rs) =
    if e.syscall_num ==ℤ num
    then if leb_ℤ e.restriction_threshold level then none else some e
    else refusing num level rs

-- A task under the rules `rs` and with the refusals `hist` behind it, `buf` being its log.
pub record IsArmed (t : Task) (rs : List Scr) (buf hist : List Fai) : Type 0 where
  pub rules : t.restrictions_list ≡ block rs
  pub rule_count : t.restrictions_list_size ≡ length rs
  pub log : t.log_list ≡ block buf
  pub ring : IsRing buf t.log_list_size hist

nil-of : (rs : List Scr) → length rs ≡ 0 → rs ≡ []
nil-of [] h = refl
nil-of (e ∷ rs) h = absurd (omega arith)

module _ (num : ℤ) (jiffies : ℕ) (t : Task) (rs : List Scr) (buf : List Fai) where
  -- The task after a refusal by the rule `e`.
  abbrev pub refused : Scr → Task
  refused e = record t {
    log_list =
        block (set buf (t.log_list_size % 100) (forbidden num t.proc_restriction_level e jiffies));
    log_list_size = t.log_list_size + 1;
  }

  abbrev pub outcome : Option Scr → Option (ℤ × Task)
  outcome none = some (pos 0, t)
  outcome (some e) = some (negsuc 0, refused e)

  log_forbidden-eq :
      (e : Scr)
      → t.log_list ≡ block buf
      → length buf ≡ 100
      → t.log_list_size + 1 < 2 ^ 31
      → log_forbidden num jiffies e t ≡ some (negsuc 0, refused e)
  unfolding log_forbidden
  log_forbidden-eq e h room in_int = ground arith

  load-block :
      (i : ℕ) (e : Scr)
      → t.restrictions_list ≡ block rs
      → get_elem? rs i ≡ some e
      → load t.restrictions_list i ≡ some e
  load-block i e h at = rw h at

  check_from-eq :
      (k i : ℕ)
      → t.restrictions_list ≡ block rs
      → t.log_list ≡ block buf
      → length buf ≡ 100
      → t.log_list_size + 1 < 2 ^ 31
      → i + k ≡ length rs
      → check_from num jiffies k i t ≡ outcome (refusing num t.proc_restriction_level (drop i rs))
  unfolding check_from
  check_from-eq zero i rules log room in_int fits = rw (drop-all i rs (omega arith))
  check_from-eq (suc k) i rules log room in_int fits =
      let (e, at) = get_elem?-lt rs i (omega arith) in
      rw (drop-eq-cons rs i at) (
        ground (
          arith,
          load-block i e rules at,
          log_forbidden-eq e log room in_int,
          check_from-eq k (suc i) rules log room in_int (omega arith),
        ))

  -- For a task whose rules and log stand where its fields say, and whose count of refusals can still
  -- grow as an int, `syscall_check` refuses exactly when
  -- the first rule for the call has a threshold above the task's level. It then returns -1 and
  -- writes one log entry, at the next place of the ring; else it returns 0 and changes nothing.
  pub syscall_check-eq :
      {hist : List Fai}
      → IsArmed t rs buf hist
      → t.log_list_size + 1 < 2 ^ 31
      → syscall_check num jiffies t ≡ outcome (refusing num t.proc_restriction_level rs)
  unfolding syscall_check
  syscall_check-eq a in_int = elim (Bool-cases (ltb t.restrictions_list_size 1)) [
    | inl empty ↦ rw empty (
        ap outcome (
          ap (refusing num t.proc_restriction_level)
            (sym (nil-of rs (ground (arith, a.rule_count))))))
    | inr some_rule ↦ rw (
      some_rule,
      check_from-eq t.restrictions_list_size 0 a.rules a.log a.ring.room in_int
          (omega (arith, a.rule_count)),
    )
  ]

  -- A refusal leaves the rules, and its entry behind the old history.
  refused-IsArmed :
      {hist : List Fai} (e : Scr)
      → IsArmed t rs buf hist
      → IsArmed
          (refused e)
          rs
          (set buf (t.log_list_size % 100) (forbidden num t.proc_restriction_level e jiffies))
          (hist ++ forbidden num t.proc_restriction_level e jiffies ∷ [])
  refused-IsArmed e a = record {
    rules = a.rules;
    rule_count = a.rule_count;
    log = refl;
    ring = push-IsRing (forbidden num t.proc_restriction_level e jiffies) a.ring;
  }

  -- The entries that a check adds to the history.
  abbrev pub entries : Option Scr → List Fai
  entries none = []
  entries (some e) = forbidden num t.proc_restriction_level e jiffies ∷ []

  outcome-IsArmed :
      {hist : List Fai} (o : Option Scr)
      → IsArmed t rs buf hist
      → (r : ℤ) × (t' : Task) × (buf' : List Fai) × (outcome o ≡ some (r, t'))
        × IsArmed t' rs buf' (hist ++ entries o)
  outcome-IsArmed {hist} none a =
      (pos 0, t, buf, refl, subst (IsArmed t rs buf) (sym (append-nil hist)) a)
  outcome-IsArmed {hist} (some e) a = (negsuc 0, refused e, _, refl, refused-IsArmed e a)

  -- A check of a task whose rules and log stand where its fields say, and whose count of refusals can
  -- still grow as an int, never faults. It leaves a task
  -- with the same rules, whose log holds the old history with the refusal, if there was one, behind
  -- it.
  pub syscall_check-IsArmed :
      {hist : List Fai}
      → IsArmed t rs buf hist
      → t.log_list_size + 1 < 2 ^ 31
      → (r : ℤ) × (t' : Task) × (buf' : List Fai) × (syscall_check num jiffies t ≡ some (r, t'))
        × IsArmed t' rs buf' (hist ++ entries (refusing num t.proc_restriction_level rs))
  syscall_check-IsArmed a in_int =
      let (r, t', buf', e, armed) = outcome-IsArmed (refusing num t.proc_restriction_level rs) a in
      (r, t', buf', syscall_check-eq a in_int ∙ e, armed)
