-- ===== src/Settings/Switched.antt =====
-- `prctl` reads back what it set.
use operation_systems.Common.{
  ℕ, ◌^◌, ◌≤◌, ◌<◌, ◌≡◌, ◌⊎◌, inl, inr, if-all, ◌&&◌, refl, Bool, false, not, Option, none, some,
  ◌==◌, arith,
}
use operation_systems.Common.Int.{ℤ, pos}
use operation_systems.Settings.Host.{einval}
use operation_systems.Settings.Process.{
  set_pdeathsig, get_pdeathsig, get_dumpable, set_dumpable, get_keepcaps, set_keepcaps, Settings,
  prctl, is_signal,
}

module _ (nsig : ℕ) (fault : Bool) (arg : ℕ) (s : Settings) where
  -- A call is accepted where `Good` holds, and is then given back by the call that reads, in `read`; it
  -- is refused where `Bad` holds.
  abbrev pub Sets :
      (Good Bad : Type 0) → (ℤ × Settings × Option ℕ → Type 0) → ℤ × Settings × Option ℕ → Type 0
  Sets Good Bad Read r = (Good × (r.0 ≡ pos 0) × Read r) ⊎ (Bad × (r ≡ (einval, s, none)))

  abbrev pub KeepcapsRead : ℤ × Settings × Option ℕ → Type 0
  KeepcapsRead = Sets (arg ≤ 1) (1 < arg) (λ r. (prctl nsig fault get_keepcaps 0 r.1).0 ≡ pos arg)

  abbrev pub DumpableRead : ℤ × Settings × Option ℕ → Type 0
  DumpableRead = Sets (arg ≤ 1) (1 < arg) (λ r. (prctl nsig fault get_dumpable 0 r.1).0 ≡ pos arg)

  abbrev pub PdeathsigRead : ℤ × Settings × Option ℕ → Type 0
  PdeathsigRead =
      Sets (arg ≤ nsig) (nsig < arg) (λ r. (prctl nsig false get_pdeathsig 0 r.1).2 ≡ some arg)

  keepcaps_read : KeepcapsRead (prctl nsig fault set_keepcaps arg s)
  unfolding prctl
  keepcaps_read =
      if-all KeepcapsRead (not (arg == 0) && not (arg == 1)) _ _
        (λ e. inr (ground (arith, e), refl)) (λ e. inl (ground (arith, e), refl, ground (arith, e)))

  dumpable_read : DumpableRead (prctl nsig fault set_dumpable arg s)
  unfolding prctl
  dumpable_read =
      if-all DumpableRead (not (arg == 0) && not (arg == 1)) _ _
        (λ e. inr (ground (arith, e), refl)) (λ e. inl (ground (arith, e), refl, ground (arith, e)))

  pdeathsig_read : nsig < 2 ^ 31 → PdeathsigRead (prctl nsig fault set_pdeathsig arg s)
  unfolding prctl
  pdeathsig_read small =
      if-all PdeathsigRead (is_signal nsig arg) _ _ (λ e. inl (ground (arith, e), refl, refl))
        (λ e. inr (ground (arith, e), refl))

-- A call of `prctl` that sets the flag to keep capabilities or the flag to dump a core is accepted for 0
-- and 1 only, and one that sets the signal at the death of the parent for 0 to _NSIG only, which is an
-- int. An accepted call returns 0, and the call that reads gives the value back; a refused one returns
-- EINVAL and changes nothing.
pub prctl-reads_back :
    (nsig : ℕ) (fault : Bool) (arg : ℕ) (s : Settings)
    → nsig < 2 ^ 31
    → KeepcapsRead nsig fault arg s (prctl nsig fault set_keepcaps arg s)
      × DumpableRead nsig fault arg s (prctl nsig fault set_dumpable arg s)
      × PdeathsigRead nsig fault arg s (prctl nsig fault set_pdeathsig arg s)
prctl-reads_back nsig fault arg s small = (
  keepcaps_read nsig fault arg s,
  dumpable_read nsig fault arg s,
  pdeathsig_read nsig fault arg s small,
)
