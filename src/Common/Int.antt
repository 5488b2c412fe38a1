-- ===== src/Common/Int.antt =====
-- C's signed integers, as integers over the native numbers.
use operation_systems.Common.Tests.{ltb, leb, ◌==◌, if◌then◌else◌, Bool-cases}
use Prim.Native.Nat.{ℕ, suc, ◌+◌, ◌-◌, ◌≤◌}
use mathlib.Core.Path.{◌≡◌, ap, sym, ◌∙◌}
use mathlib.Core.Logic.{◌≢◌, ◌⊎◌, inl, inr}
use mathlib.Core.Bool.{Bool, true, false}
use native.Mathlib.Omega.{arith}

-- `negsuc n` is -(n + 1).
pub data ℤ : Type 0 where
  pos : ℕ → ℤ
  negsuc : ℕ → ℤ

abbrev pub pos_part : ℤ → ℕ
pos_part (pos n) = n
pos_part (negsuc n) = 0

abbrev pub neg_part : ℤ → ℕ
neg_part (pos n) = 0
neg_part (negsuc n) = suc n

-- a - b, as an integer.
abbrev pub sub_ℕ : ℕ → ℕ → ℤ
sub_ℕ a b = if leb b a then pos (a - b) else negsuc (b - a - 1)

infixl 65 ◌+ℤ◌ ◌-ℤ◌
infix 50 ◌≤ℤ◌ ◌==ℤ◌
unfoldable pub ◌+ℤ◌ : ℤ → ℤ → ℤ
a +ℤ b = sub_ℕ (pos_part a + pos_part b) (neg_part a + neg_part b)

unfoldable pub ◌-ℤ◌ : ℤ → ℤ → ℤ
a -ℤ b = sub_ℕ (pos_part a + neg_part b) (neg_part a + pos_part b)

abbrev pub ◌≤ℤ◌ : ℤ → ℤ → Type 0
a ≤ℤ b = pos_part a + neg_part b ≤ pos_part b + neg_part a

abbrev pub ltb_ℤ : ℤ → ℤ → Bool
ltb_ℤ a b = ltb (pos_part a + neg_part b) (pos_part b + neg_part a)

abbrev pub leb_ℤ : ℤ → ℤ → Bool
leb_ℤ a b = leb (pos_part a + neg_part b) (pos_part b + neg_part a)

abbrev pub ◌==ℤ◌ : ℤ → ℤ → Bool
a ==ℤ b = (pos_part a + neg_part b) == (pos_part b + neg_part a)

pub +ℤ_parts :
    (a b : ℤ)
    → pos_part (a +ℤ b) + neg_part a + neg_part b ≡ neg_part (a +ℤ b) + pos_part a + pos_part b
unfolding ◌+ℤ◌
+ℤ_parts a b = ground arith

pub -ℤ_parts :
    (a b : ℤ)
    → pos_part (a -ℤ b) + neg_part a + pos_part b ≡ neg_part (a -ℤ b) + pos_part a + neg_part b
unfolding ◌-ℤ◌
-ℤ_parts a b = ground arith

pub eq_of_parts : (a b : ℤ) → pos_part a + neg_part b ≡ pos_part b + neg_part a → a ≡ b
eq_of_parts a b h = ground arith

pub ==ℤ_eq : (a b : ℤ) → (a ==ℤ b) ≡ true → a ≡ b
==ℤ_eq a b h = ground arith

pub ==ℤ_refl : (a : ℤ) → (a ==ℤ a) ≡ true
==ℤ_refl a = ground arith

pos-add : (a b : ℕ) → pos a +ℤ pos b ≡ pos (a + b)
unfolding ◌+ℤ◌
pos-add a b = ground arith

pos-sub : (a b c : ℕ) → a ≡ b + c → pos a -ℤ pos c ≡ pos b
unfolding ◌-ℤ◌
pos-sub a b c e = ground arith

-- A counter that holds a number still does after an addition or a subtraction.
pub plus_pos : {x : ℤ} {a b : ℕ} (c : ℕ) → x ≡ pos a → b ≡ a + c → x +ℤ pos c ≡ pos b
plus_pos {x} {a} {b} c e f = rw (e, f) (pos-add a c)

pub minus_pos : {x : ℤ} {a b : ℕ} (c : ℕ) → x ≡ pos a → a ≡ b + c → x -ℤ pos c ≡ pos b
minus_pos {x} {a} {b} c e f = rw e (pos-sub a b c f)

-- What a call leaves alone unless it returns 0.
pub returns_zero_or {ℓ κ} :
    {C : Type ℓ} (P : C → Type κ) (r : ℤ × C) → (r.0 ≢ pos 0 → P r.1) → (r.0 ≡ pos 0) ⊎ P r.1
returns_zero_or P r h = elim (Bool-cases (r.0 ==ℤ pos 0)) [
  | inl e ↦ inl (==ℤ_eq r.0 (pos 0) e)
  | inr e ↦ inr (h (λ q. absurd (true≢false (sym (ap (λ x. x ==ℤ pos 0) q) ∙ e))))
]
  where
    true≢false : true ≡ false → ⊥
    true≢false x = cc

pub ruleset int_laws = (arith, +ℤ_parts, -ℤ_parts, eq_of_parts)
