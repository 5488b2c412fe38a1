-- ===== src/Notify/Chain.antt =====
-- A chain is the list of its blocks along `next`. A block that is registered stands in no chain.
use operation_systems.Common.{ℕ, Bool, List, [], ◌∷◌, ◌==◌, if◌then◌else◌}
use operation_systems.Common.Int.{ℤ, pos, negsuc, ltb_ℤ}

abbrev pub enoent : ℤ
enoent = negsuc 1

-- `address` tells blocks apart.
pub record NotifierBlock : Type 0 where
  pub address : ℕ
  pub priority : ℤ

abbrev pub keep_head : NotifierBlock → ℤ × List NotifierBlock → ℤ × List NotifierBlock
keep_head b (r, chain) = (r, b ∷ chain)

-- The loop runs past every block of at least the new one's priority.
unfoldable pub notifier_chain_register : NotifierBlock → List NotifierBlock → ℤ × List NotifierBlock
notifier_chain_register n [] = (pos 0, n ∷ [])
notifier_chain_register n (b ∷ chain) =
    let rest = keep_head b (notifier_chain_register n chain) in
    if ltb_ℤ b.priority n.priority then (pos 0, n ∷ b ∷ chain) else rest

unfoldable pub notifier_chain_unregister :
    NotifierBlock → List NotifierBlock → ℤ × List NotifierBlock
notifier_chain_unregister n [] = (enoent, [])
notifier_chain_unregister n (b ∷ chain) =
    let rest = keep_head b (notifier_chain_unregister n chain) in
    if b.address == n.address then (pos 0, chain) else rest

-- `notifier_call` runs a block's function on the rest of the kernel, `stops` is the test of the result by
-- NOTIFY_STOP_MASK.
module _ {S : Type 0} (notifier_call : NotifierBlock → S → ℤ × S) (stops : ℤ → Bool) where
  -- The loop, with the last result.
  unfoldable pub call_from : ℤ → List NotifierBlock → S → ℤ × S
  call_from ret [] s = (ret, s)
  call_from ret (nb ∷ chain) s =
      let r = notifier_call nb s in
      let rest = call_from r.0 chain r.1 in if stops r.0 then r else rest

  -- NOTIFY_DONE is 0.
  unfoldable pub notifier_call_chain : List NotifierBlock → S → ℤ × S
  notifier_call_chain chain s = call_from (pos 0) chain s
