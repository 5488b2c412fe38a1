-- ===== src/Settings/Tests.antt =====
-- Instances of the theorems on names and settings.
use operation_systems.Common.{arith, ℕ, ◌<◌, ◌≡◌, refl, true, false, some, arith}
use operation_systems.Common.Int.{pos}
use operation_systems.Settings.Host.{Utsname, Copy, gethostname, sethostname}
use operation_systems.Settings.Process.{Settings, prctl, set_keepcaps, set_dumpable, set_pdeathsig}
use operation_systems.Settings.Named.{Fits, gethostname-Fits, gethostname-sethostname}
use operation_systems.Settings.Switched.{
  KeepcapsRead, DumpableRead, PdeathsigRead, prctl-reads_back,
}

abbrev zeros : ℕ → ℕ
zeros j = 0

abbrev all_a : ℕ → ℕ
all_a j = 97

abbrev no_name : Utsname
no_name = record { nodename = zeros; domainname = zeros }

abbrev well : Copy
well = record { capable = true; fault = false; left = zeros }

gethostname-Fits_example : Fits (pos 3) all_a (gethostname well all_a (pos 3) no_name)
gethostname-Fits_example = gethostname-Fits well all_a (pos 3) no_name refl

gethostname-sethostname_example :
    (user' : ℕ → ℕ) × (gethostname well zeros (pos 5) (sethostname well all_a (pos 2) no_name).1
      ≡ some (pos 0, user'))
    × ((j : ℕ) → j < 2 → user' j ≡ 97)
    × (user' 2 ≡ 0)
gethostname-sethostname_example =
    gethostname-sethostname well well all_a zeros 2 5 no_name refl refl refl (omega arith)
      (omega arith) (λ j l e. absurd (omega (arith, e)))

abbrev plain_settings : Settings
plain_settings = record { pdeath_signal = 0; dumpable = 0; keep_capabilities = 0; umask = 18 }

prctl-reads_back_example :
    KeepcapsRead 64 false 1 plain_settings (prctl 64 false set_keepcaps 1 plain_settings)
    × DumpableRead 64 false 1 plain_settings (prctl 64 false set_dumpable 1 plain_settings)
    × PdeathsigRead 64 false 1 plain_settings (prctl 64 false set_pdeathsig 1 plain_settings)
prctl-reads_back_example = prctl-reads_back 64 false 1 plain_settings (omega arith)
