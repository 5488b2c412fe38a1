-- ===== src/Notify/Ordered.antt =====
-- A chain stays in the order of priorities, and what a call of it runs.
use operation_systems.Common.{
  ◌≡◌, ◌∙◌, inl, inr, ap, Bool, true, false, Bool-cases, Option, none, some, List, [], ◌∷◌, ◌++◌,
  ◌==◌, if◌then◌else◌, arith,
}
use operation_systems.Common.Int.{ℤ, pos, ltb_ℤ, ◌≤ℤ◌}
use operation_systems.Notify.Chain.{
  NotifierBlock, notifier_chain_register, call_from, notifier_call_chain,
}

-- No block of the chain has a higher priority than `p`.
abbrev pub Below : ℤ → List NotifierBlock → Type 0
Below p [] = Unit {0}
Below p (b ∷ chain) = (b.priority ≤ℤ p) × Below p chain

-- Priorities fall along the chain.
abbrev pub IsOrdered : List NotifierBlock → Type 0
IsOrdered [] = Unit {0}
IsOrdered (b ∷ chain) = Below b.priority chain × IsOrdered chain

-- The block is not in the chain.
abbrev pub IsNew : NotifierBlock → List NotifierBlock → Type 0
IsNew n [] = Unit {0}
IsNew n (b ∷ chain) = ((b.address == n.address) ≡ false) × IsNew n chain

Below-trans : (p q : ℤ) (chain : List NotifierBlock) → p ≤ℤ q → Below p chain → Below q chain
Below-trans p q [] h k = tt
Below-trans p q (b ∷ chain) h k = (omega (arith, k.0), Below-trans p q chain h k.1)

Below-register :
    (p : ℤ) (n : NotifierBlock) (chain : List NotifierBlock)
    → n.priority ≤ℤ p
    → Below p chain
    → Below p (notifier_chain_register n chain).1
unfolding notifier_chain_register
Below-register p n [] h k = (h, tt)
Below-register p n (b ∷ chain) h k = elim (Bool-cases (ltb_ℤ b.priority n.priority)) [
  | inl e ↦ rw e (h, k)
  | inr e ↦ rw e (k.0, Below-register p n chain h k.1)
]

-- Registering keeps a chain ordered by falling priority.
pub notifier_chain_register-IsOrdered :
    (n : NotifierBlock) (chain : List NotifierBlock)
    → IsOrdered chain
    → IsOrdered (notifier_chain_register n chain).1
unfolding notifier_chain_register
notifier_chain_register-IsOrdered n [] o = (tt, tt)
notifier_chain_register-IsOrdered n (b ∷ chain) o =
    elim (Bool-cases (ltb_ℤ b.priority n.priority)) [
      | inl e ↦
          rw e (((ground arith), Below-trans b.priority n.priority chain (ground arith) o.0), o)
      | inr e ↦ rw e (
        Below-register b.priority n chain (ground arith) o.0,
        notifier_chain_register-IsOrdered n chain o.1,
      )
    ]

module _ {S : Type 0} (notifier_call : NotifierBlock → S → ℤ × S) (stops : ℤ → Bool) where
  -- The last result and the state after the blocks of `front`; `none` if one of them stops the call.
  abbrev pub pass_all : List NotifierBlock → ℤ → S → Option (ℤ × S)
  pass_all [] ret s = some (ret, s)
  pass_all (b ∷ front) ret s =
      let rest = pass_all front (notifier_call b s).0 (notifier_call b s).1 in
      if stops (notifier_call b s).0 then none else rest

  call_from-stops :
      (front : List NotifierBlock) (nb : NotifierBlock) (back : List NotifierBlock) (ret r : ℤ)
      (s s' : S)
      → pass_all front ret s ≡ some (r, s')
      → stops (notifier_call nb s').0 ≡ true
      → call_from notifier_call stops ret (front ++ nb ∷ back) s ≡ notifier_call nb s'
  unfolding call_from
  call_from-stops [] nb back ret r s s' e h =
      let same : s ≡ s' = cc in
      rw (ap (λ x. stops (notifier_call nb x).0) same ∙ h) (ap (notifier_call nb) same)
  call_from-stops (b ∷ front) nb back ret r s s' e h =
      elim (Bool-cases (stops (notifier_call b s).0)) [
        | inl st ↦ absurd (ground (arith, e))
        | inr go ↦ rw go (
            call_from-stops front nb back (notifier_call b s).0 r (notifier_call b s).1 s'
              (ground (arith, e)) h)
      ]

-- Where no block of `front` stops the call and `nb` behind it does, the call of the chain runs `front` and
-- `nb`, in order, and nothing behind, and returns what `nb` does.
pub notifier_call_chain-stops :
    {S : Type 0} (notifier_call : NotifierBlock → S → ℤ × S) (stops : ℤ → Bool)
    (front : List NotifierBlock) (nb : NotifierBlock) (back : List NotifierBlock) (r : ℤ) (s s' : S)
    → pass_all notifier_call stops front (pos 0) s ≡ some (r, s')
    → stops (notifier_call nb s').0 ≡ true
    → notifier_call_chain notifier_call stops (front ++ nb ∷ back) s ≡ notifier_call nb s'
unfolding notifier_call_chain
notifier_call_chain-stops notifier_call stops front nb back r s s' e h =
    call_from-stops notifier_call stops front nb back (pos 0) r s s' e h
