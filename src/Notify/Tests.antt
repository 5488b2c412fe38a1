-- ===== src/Notify/Tests.antt =====
-- Instances of the theorems on notifier chains.
use operation_systems.Common.{ℕ, ◌≡◌, refl, Bool, List, [], ◌∷◌}
use operation_systems.Common.Int.{ℤ, pos, negsuc, ◌==ℤ◌}
use operation_systems.Notify.Chain.{NotifierBlock, notifier_chain_register}

abbrev disk : NotifierBlock
disk = record { address = 1; priority = pos 5 }

abbrev watchdog : NotifierBlock
watchdog = record { address = 2; priority = pos 0 }

abbrev network : NotifierBlock
network = record { address = 3; priority = negsuc 0 }

-- Each function writes down its block, and the second one stops the call.
abbrev note : NotifierBlock → List ℕ → ℤ × List ℕ
note b called = (pos b.address, b.address ∷ called)

abbrev stops_at_2 : ℤ → Bool
stops_at_2 r = r ==ℤ pos 2

register_in_order :
    notifier_chain_register watchdog (disk ∷ network ∷ []) ≡ (pos 0, disk ∷ watchdog ∷ network ∷ [])
unfolding notifier_chain_register
register_in_order = refl
