-- ===== src/Restrict/Ring.antt =====
-- The log as a ring: the entry of the i-th refusal stands at index i % 100 until it is overwritten.
use operation_systems.Common.{
  ℕ, ◌+◌, ◌%◌, ◌≤◌, ◌<◌, ◌≡◌, ◌∙◌, sym, refl, inl, inr, Bool-cases, List, [], ◌∷◌, ◌++◌, arith, ltb,
  ltb→lt, length, get_elem?, set, length-set, length-append, get_elem?-set_self, get_elem?-set_ne,
  get_elem?-append_left, get_elem?-append_last,
}
use operation_systems.Restrict.Task.{Fai}
use operation_systems.Restrict.Check.{rest_list_size}

-- `buf`, with `n` refusals counted, holds the last hundred entries of the history `hist`.
pub record IsRing (buf : List Fai) (n : ℕ) (hist : List Fai) : Type 0 where
  pub room : length buf ≡ rest_list_size
  pub counted : n ≡ length hist
  pub kept : (i : ℕ) → i < n → n ≤ i + 100 → get_elem? buf (i % 100) ≡ get_elem? hist i

pub empty-IsRing : (buf : List Fai) → length buf ≡ rest_list_size → IsRing buf 0 []
empty-IsRing buf h = record { room = h; counted = refl; kept = λ i p q. absurd (omega arith) }

pub push-IsRing :
    {buf hist : List Fai} {n : ℕ} (e : Fai)
    → IsRing buf n hist
    → IsRing (set buf (n % 100) e) (n + 1) (hist ++ e ∷ [])
push-IsRing {buf} {hist} {n} e r = record {
  room = length-set buf (n % 100) e ∙ r.room;
  counted = omega (arith, length-append hist (e ∷ []), r.counted);
  kept = kept';
}
  where
    kept' :
        (i : ℕ)
        → i < n + 1
        → n + 1 ≤ i + 100
        → get_elem? (set buf (n % 100) e) (i % 100) ≡ get_elem? (hist ++ e ∷ []) i
    kept' i p q = elim (Bool-cases (ltb i n)) [
      | inl old ↦
          get_elem?-set_ne buf e (omega (arith, ltb→lt i n old))
          ∙ r.kept i (ltb→lt i n old) (omega arith)
          ∙ sym (get_elem?-append_left hist (e ∷ []) i (omega (arith, ltb→lt i n old, r.counted)))
      | inr new ↦
          let i_eq : i ≡ n = ground arith in
          rw (i_eq, get_elem?-set_self buf (n % 100) e (omega (arith, r.room)), r.counted)
            (sym (get_elem?-append_last hist e))
    ]
