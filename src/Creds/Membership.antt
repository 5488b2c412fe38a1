-- ===== src/Creds/Membership.antt =====
-- The groups of a process, and what a call may set them to.
use operation_systems.Common.{
  ℕ, zero, suc, ◌+◌, ◌≤◌, ◌<◌, ◌≡◌, ◌⊎◌, ◌↔◌, inl, inr, ap, ◌∙◌, Bool, true, Option, none, some,
  List, Bool-cases, ==_iff, ◌==◌, arith, length, get_elem?,
}
use operation_systems.Common.Int.{ℤ, pos_part}
use operation_systems.Creds.Ids.{Cred}
use operation_systems.Creds.Member.{
  max_groups, is_group, member_from, supplemental_group_member, in_group_p, setgroups,
}

-- Some index below the count holds the group.
abbrev pub IsMember : ℕ → Cred → Type 0
IsMember grp c = (i : ℕ) × (i < c.ngroups) × (get_elem? c.groups i ≡ some grp)

abbrev pub IsHeld : ℕ → ℕ → List ℕ → ℕ → Type 0
IsHeld grp left groups i = (j : ℕ) × (i ≤ j) × (j < i + left) × (get_elem? groups j ≡ some grp)

module _ (grp : ℕ) (groups : List ℕ) where
  is_group_iff : (o : Option ℕ) → (is_group grp o ≡ true) ↔ (o ≡ some grp)
  is_group_iff none = ground arith
  is_group_iff (some g) = ground arith

  later : (left i : ℕ) → IsHeld grp left groups (suc i) → IsHeld grp (suc left) groups i
  later left i (j, l, r, e) = (j, omega arith, omega arith, e)

  -- A member that the loop finds stands where it looked.
  member_from_sound : (left i : ℕ) → member_from grp left groups i ≡ true → IsHeld grp left groups i
  unfolding member_from
  member_from_sound zero i h = absurd cc
  member_from_sound (suc left) i h = elim (Bool-cases (is_group grp (get_elem? groups i))) [
    | inl e ↦ (i, omega arith, omega arith, (is_group_iff (get_elem? groups i)).0 e)
    | inr n ↦ later left i (member_from_sound left (suc i) (ground arith))
  ]

  -- The loop finds every member that stands where it looks.
  member_from_complete :
      (left i j : ℕ)
      → i ≤ j
      → j < i + left
      → get_elem? groups j ≡ some grp
      → member_from grp left groups i ≡ true
  unfolding member_from
  member_from_complete zero i j l r e = absurd (omega arith)
  member_from_complete (suc left) i j l r e = elim (Bool-cases (i == j)) [
    | inl h ↦
        let here : is_group grp (get_elem? groups i) ≡ true =
          (is_group_iff (get_elem? groups i)).1 (ap (get_elem? groups) ((==_iff i j).0 h) ∙ e) in
        ground arith
    | inr n ↦
        let found : member_from grp left groups (suc i) ≡ true =
          member_from_complete left (suc i) j (ground arith) (omega arith) e in
        ground arith
  ]

-- The loop finds exactly the members.
pub supplemental_group_member_iff :
    (grp : ℕ) (c : Cred) → (supplemental_group_member grp c ≡ true) ↔ IsMember grp c
unfolding supplemental_group_member
supplemental_group_member_iff grp c =
    ((λ h. to_member (member_from_sound grp c.groups c.ngroups 0 h)), from_member)
  where
    to_member : IsHeld grp c.ngroups c.groups 0 → IsMember grp c
    to_member (j, l, r, e) = (j, omega arith, e)

    from_member : IsMember grp c → member_from grp c.ngroups c.groups 0 ≡ true
    from_member (j, r, e) =
        member_from_complete grp c.groups c.ngroups 0 j (omega arith) (omega arith) e

-- A process belongs to a group exactly if that is its fsgid or stands among its first `ngroups`
-- groups.
pub in_group_p_iff :
    (grp : ℕ) (c : Cred) → (in_group_p grp c ≡ true) ↔ ((grp ≡ c.fsgid) ⊎ IsMember grp c)
unfolding in_group_p
in_group_p_iff grp c = (forth, back)
  where
    forth : in_group_p grp c ≡ true → (grp ≡ c.fsgid) ⊎ IsMember grp c
    forth h = elim (Bool-cases (grp == c.fsgid)) [
      | inl e ↦ inl ((==_iff grp c.fsgid).0 e)
      | inr n ↦ inr ((supplemental_group_member_iff grp c).0 (ground arith))
    ]

    back : (grp ≡ c.fsgid) ⊎ IsMember grp c → in_group_p grp c ≡ true
    back (inl e) = ground arith
    back (inr m) =
        let h : supplemental_group_member grp c ≡ true =
          (supplemental_group_member_iff grp c).1 m in
        ground arith

-- What `current->groups` must look like for a read of the first `ngroups` to be in bounds.
abbrev pub IsBounded : Cred → Type 0
IsBounded c = (c.ngroups ≤ max_groups) × (length c.groups ≡ max_groups)

-- `setgroups` keeps the number of groups within the array, if copying leaves the array its length.
pub setgroups-IsBounded :
    (capable : Bool) (copied : ℕ → Bool × List ℕ) (size : ℤ) (c : Cred)
    → ((n : ℕ) → n ≤ max_groups → length (copied n).1 ≡ max_groups)
    → IsBounded c
    → IsBounded (setgroups capable copied size c).1
unfolding setgroups
setgroups-IsBounded capable copied size c h b = (ground arith, ground (arith, h (pos_part size)))
