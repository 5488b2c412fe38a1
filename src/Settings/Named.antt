-- ===== src/Settings/Named.antt =====
-- The host name stays a string, and is read back as it was set.
use operation_systems.Common.{
  ℕ, zero, suc, ◌+◌, ◌≤◌, ◌<◌, ◌≡◌, ◌≢◌, refl, true, false, ◌||◌, Option, some, ◌==◌, if-all, inl,
  inr, Bool-cases, arith, ==_iff, ap, ◌∙◌,
}
use operation_systems.Common.Int.{ℤ, pos, negsuc, ltb_ℤ, pos_part}
use operation_systems.Settings.Host.{
  Utsname, Copy, new_uts_len, write_bytes, end_string, set_name, sethostname, strlen_from, cut_at,
  copy_out, gethostname, efault, einval,
}

-- The last byte of the array is 0, so a string ends in it.
abbrev pub IsEnded : (ℕ → ℕ) → Type 0
IsEnded bytes = bytes new_uts_len ≡ 0

-- Whatever is asked for, and also where a copy fails halfway, the array still ends with 0.
pub set_name-IsEnded :
    (copy : Copy) (name bytes : ℕ → ℕ) (len : ℤ)
    → IsEnded bytes
    → IsEnded (set_name copy name len bytes).1
unfolding set_name
set_name-IsEnded copy name bytes (pos n) ended = ground (arith, ended)
set_name-IsEnded copy name bytes (negsuc n) ended = ground (arith, ended)

-- The first 0 from `i` on is found.
strlen_from-first :
    (rest i n : ℕ) (bytes : ℕ → ℕ)
    → i ≤ n
    → n < i + rest
    → bytes n ≡ 0
    → ((j : ℕ) → i ≤ j → j < n → bytes j ≢ 0)
    → strlen_from rest i bytes ≡ some n
unfolding strlen_from
strlen_from-first zero i n bytes a b e f = absurd (omega (arith, a, b))
strlen_from-first (suc rest) i n bytes a b e f = elim (Bool-cases (i == n)) [
  | inl q ↦ let here : i ≡ n = (==_iff i n).0 q in ground (arith, e, ap bytes here, here)
  | inr q ↦ ground (
    arith,
    f i (omega arith) (ground arith),
    strlen_from-first rest (suc i) n bytes (ground arith) (omega arith) e
        (λ j c d. f j (omega arith) d),
  )
]

abbrev Found : Option ℕ → Type 0
Found answer = (n : ℕ) × (answer ≡ some n)

plus_zero : (i : ℕ) → i + 0 ≡ i
plus_zero i = omega arith

-- A string is found in every ended array.
strlen_from-some :
    (rest i : ℕ) (bytes : ℕ → ℕ) → bytes (i + rest) ≡ 0 → Found (strlen_from (suc rest) i bytes)
unfolding strlen_from
strlen_from-some zero i bytes e =
    if-all Found (bytes i == 0) _ _ (λ g. (i, refl))
      (λ g. absurd (ground (arith, e, g, ap bytes (plus_zero i))))
strlen_from-some (suc rest) i bytes e =
    if-all Found (bytes i == 0) _ (strlen_from (suc rest) (suc i) bytes) (λ g. (i, refl))
      (λ g. strlen_from-some rest (suc i) bytes (ap bytes (omega arith) ∙ e))

-- What `gethostname` is to give: with a buffer of `len` bytes, nothing is written behind it.
abbrev pub Fits : ℤ → (ℕ → ℕ) → Option (ℤ × (ℕ → ℕ)) → Type 0
Fits len user answer =
    (r : ℤ) × (user' : ℕ → ℕ) × (answer ≡ some (r, user'))
    × ((j : ℕ) → pos_part len ≤ j → user' j ≡ user j)

-- Where the host name's array ends with 0, `gethostname` finds the end of the string in it, returns, and
-- writes nothing behind the `len` bytes of the buffer.
pub gethostname-Fits :
    (copy : Copy) (user : ℕ → ℕ) (len : ℤ) (u : Utsname)
    → IsEnded u.nodename
    → Fits len user (gethostname copy user len u)
unfolding gethostname
gethostname-Fits copy user len u ended =
    let (l, e) = strlen_from-some new_uts_len 0 u.nodename ended in
    let n : ℕ = pos_part len in
    if-all (Fits len user) (ltb_ℤ len (pos 0)) (some (einval, user))
      (copy_out copy n u.nodename user (strlen_from (new_uts_len + 1) 0 u.nodename))
      (λ f. (einval, user, refl, λ j h. refl))
      (λ f. rw e (
        if-all (Fits len user) copy.fault
          (some (efault, write_bytes (cut_at n (1 + l)) copy.left user))
          (some (pos 0, write_bytes (cut_at n (1 + l)) u.nodename user))
          (λ g. (efault, _, refl, λ j h. ground arith))
          (λ g. (pos 0, _, refl, λ j h. ground arith))))

set_name_now :
    (copy : Copy) (name bytes : ℕ → ℕ) (n : ℕ)
    → copy.capable ≡ true
    → copy.fault ≡ false
    → n ≤ new_uts_len
    → set_name copy name (pos n) bytes ≡ (pos 0, end_string n (write_bytes n name bytes))
unfolding set_name
set_name_now copy name bytes n able well short =
    let in_range : ltb_ℤ (pos n) (pos 0) || ltb_ℤ (pos new_uts_len) (pos n) ≡ false =
      ground arith in
    rw (able, in_range, well)

gethostname_now :
    (copy : Copy) (user : ℕ → ℕ) (m n : ℕ) (u : Utsname)
    → copy.fault ≡ false
    → n < m
    → strlen_from (new_uts_len + 1) 0 u.nodename ≡ some n
    → gethostname copy user (pos m) u ≡ some (pos 0, write_bytes (1 + n) u.nodename user)
unfolding gethostname
gethostname_now copy user m n u well room found =
    let in_range : ltb_ℤ (pos m) (pos 0) ≡ false = ground arith in
    let whole : cut_at m (1 + n) ≡ 1 + n = ground arith in rw (in_range, found, well, whole)

-- A host name without zero bytes that is set is read back, with a 0 behind it, by a buffer that is longer.
pub gethostname-sethostname :
    (copy copy' : Copy) (name user : ℕ → ℕ) (n m : ℕ) (u : Utsname)
    → copy.capable ≡ true
    → copy.fault ≡ false
    → copy'.fault ≡ false
    → n ≤ new_uts_len
    → n < m
    → ((j : ℕ) → j < n → name j ≢ 0)
    → (user' : ℕ → ℕ) × (gethostname copy' user (pos m) (sethostname copy name (pos n) u).1
        ≡ some (pos 0, user'))
      × ((j : ℕ) → j < n → user' j ≡ name j)
      × (user' n ≡ 0)
gethostname-sethostname copy copy' name user n m u able well well' short room nonzero =
    let named : ℕ → ℕ = end_string n (write_bytes n name u.nodename) in
    let found : strlen_from (new_uts_len + 1) 0 named ≡ some n =
      strlen_from-first (new_uts_len + 1) 0 n named (omega arith) (omega arith) (ground arith)
        (λ j _ l. ground (arith, nonzero j l)) in
    (
      write_bytes (1 + n) named user,
      ap (λ r. gethostname copy' user (pos m) (record u { nodename = r.1 }))
            (set_name_now copy name u.nodename n able well short)
          ∙ gethostname_now copy' user m n (record u { nodename = named }) well' room found,
      λ j l. ground arith,
      ground arith,
    )
