-- ===== src/Sessions/Tests.antt =====
-- Tests and instances of the theorems on sessions and limits.
use operation_systems.Common.{
  inl, inr, ℕ, ◌⊎◌, ◌≡◌, refl, true, false, Option, none, some, [], ◌∷◌, ◌==◌, if◌then◌else◌,
}
use operation_systems.Common.Int.{ℤ, pos, ◌==ℤ◌}
use operation_systems.Sessions.Groups.{Proc, Procs, eperm, setpgid, setsid}
use operation_systems.Sessions.Limits.{Rlimit, Limits, Numbers}
use operation_systems.Sessions.Led.{setpgid-frame, setsid-once}

-- A shell, the leader of the session 10, with two children; the last one is in a group of its own.
abbrev shell : Proc
shell = record {
  pid = pos 10;
  pgrp = pos 10;
  session = pos 10;
  leader = true;
  did_exec = true;
  p_pptr = 9;
  p_opptr = 9;
  has_tty = true;
  tty_old_pgrp = pos 0;
}

abbrev child : ℤ → Proc
child n = record shell { pid = n; leader = false; did_exec = false; p_pptr = 0; p_opptr = 0 }

abbrev table : ℕ → Proc
table p = if p == 0 then shell else if p == 1 then child (pos 11) else child (pos 12)

abbrev at_shell : Procs
at_shell = record { task = table; listed = 0 ∷ 1 ∷ 2 ∷ []; current = 0 }

abbrev at_child : Procs
at_child = record at_shell { current = 1 }

abbrev find : ℤ → Option ℕ
find pid =
    if pid ==ℤ pos 10
    then some 0
    else if pid ==ℤ pos 11
    then some 1
    else if pid ==ℤ pos 12
    then some 2
    else none

abbrev nums : Numbers
nums = record {
  rlim_nlimits = 11;
  rlimit_nofile = 7;
  rlimit_rss = 5;
  rlim_infinity = 4294967295;
  nr_open = 1048576;
  page_size = 4096;
}

abbrev limits : Limits
limits = record { rlim = (λ r. record { rlim_cur = 100; rlim_max = 200 }); mm_rlimit_rss = some 7 }

abbrev higher : Rlimit
higher = record { rlim_cur = 150; rlim_max = 180 }

setpgid-frame_example :
    ((setpgid find (pos 12) (pos 0) at_shell).1.task 2 ≡ child (pos 12))
    ⊎ (((setpgid find (pos 12) (pos 0) at_shell).0 ≡ pos 0)
        × (false ≡ false)
        × ((2 ≡ at_shell.current)
            ⊎ (((child (pos 12)).p_pptr ≡ 0) ⊎ ((child (pos 12)).p_opptr ≡ 0))))
setpgid-frame_example = setpgid-frame find (pos 12) (pos 0) at_shell 2

setsid-once_example : setsid (setsid at_child).1 ≡ (eperm, (setsid at_child).1)
setsid-once_example = setsid-once at_child (inr (inl refl))

moves_child :
    (setpgid find (pos 12) (pos 0) at_shell).1.task 2 ≡ record (child (pos 12)) { pgrp = pos 12 }
unfolding setpgid
moves_child = refl
