-- ===== src/Settings/Host.antt =====
-- `sys_sethostname`, `sys_gethostname` and `sys_setdomainname`.
use operation_systems.Common.{
  ℕ, zero, suc, ◌+◌, Bool, not, ◌||◌, Option, none, some, ltb, ◌==◌, if◌then◌else◌,
}
use operation_systems.Common.Int.{ℤ, pos, negsuc, ltb_ℤ, pos_part}

abbrev pub eperm : ℤ
eperm = negsuc 0

abbrev pub efault : ℤ
efault = negsuc 13

abbrev pub einval : ℤ
einval = negsuc 21

-- __NEW_UTS_LEN; an array has one byte more.
abbrev pub new_uts_len : ℕ
new_uts_len = 64

-- `nodename` and `domainname` of `system_utsname`.
pub record Utsname : Type 0 where
  pub nodename : ℕ → ℕ
  pub domainname : ℕ → ℕ

-- What the calls answer: `fault` is a failing copy, which leaves `left` in the bytes it was to write.
pub record Copy : Type 0 where
  pub capable : Bool
  pub fault : Bool
  pub left : ℕ → ℕ

-- The first `n` bytes are written.
abbrev pub write_bytes : ℕ → (ℕ → ℕ) → (ℕ → ℕ) → ℕ → ℕ
write_bytes n from to j = if ltb j n then from j else to j

abbrev pub end_string : ℕ → (ℕ → ℕ) → ℕ → ℕ
end_string n bytes j = if j == n then 0 else bytes j

-- What `sys_sethostname` and `sys_setdomainname` do with their array.
unfoldable pub set_name : Copy → (ℕ → ℕ) → ℤ → (ℕ → ℕ) → ℤ × (ℕ → ℕ)
set_name copy name len bytes =
    let n : ℕ = pos_part len in
    if not copy.capable
    then (eperm, bytes)
    else if ltb_ℤ len (pos 0) || ltb_ℤ (pos new_uts_len) len
    then (einval, bytes)
    else if copy.fault
    then (efault, write_bytes n copy.left bytes)
    else (pos 0, end_string n (write_bytes n name bytes))

abbrev pub sethostname : Copy → (ℕ → ℕ) → ℤ → Utsname → ℤ × Utsname
sethostname copy name len u =
    let r = set_name copy name len u.nodename in (r.0, record u { nodename = r.1 })

abbrev pub setdomainname : Copy → (ℕ → ℕ) → ℤ → Utsname → ℤ × Utsname
setdomainname copy name len u =
    let r = set_name copy name len u.domainname in (r.0, record u { domainname = r.1 })

-- `strlen` from a byte on, with so many bytes left in the array; `none` reads past it.
unfoldable pub strlen_from : ℕ → ℕ → (ℕ → ℕ) → Option ℕ
strlen_from zero i bytes = none
strlen_from (suc rest) i bytes =
    let further = strlen_from rest (suc i) bytes in if bytes i == 0 then some i else further

-- `i`, at most `len`.
abbrev pub cut_at : ℕ → ℕ → ℕ
cut_at len i = if ltb len i then len else i

abbrev pub copy_out : Copy → ℕ → (ℕ → ℕ) → (ℕ → ℕ) → Option ℕ → Option (ℤ × (ℕ → ℕ))
copy_out copy len bytes user none = none
copy_out copy len bytes user (some l) =
    let i : ℕ = cut_at len (1 + l) in
    if copy.fault
    then some (efault, write_bytes i copy.left user)
    else some (pos 0, write_bytes i bytes user)

-- The result and the user's memory at `name`.
unfoldable pub gethostname : Copy → (ℕ → ℕ) → ℤ → Utsname → Option (ℤ × (ℕ → ℕ))
gethostname copy user len u =
    if ltb_ℤ len (pos 0)
    then some (einval, user)
    else copy_out copy (pos_part len) u.nodename user (strlen_from (new_uts_len + 1) 0 u.nodename)
