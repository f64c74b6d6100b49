-- ===== src/Prelude/Int.antt =====
-- Signed integers over the native numbers: the signed amounts of the billing ledger.
use openunion.Prelude.Tests.{leb, if◌then◌else◌}
use Prim.Native.Nat.{ℕ, suc, ◌+◌, ◌-◌}
use mathlib.Core.Path.{◌≡◌, ap}
use mathlib.Core.Bool.{Bool, true, false}
use native.Mathlib.Omega.{arith}

-- `negsuc n` is -(n + 1).
pub data ℤ : Type 0 where
  pos : ℕ → ℤ
  negsuc : ℕ → ℤ

abbrev pub pos_part : ℤ → ℕ
pos_part (pos n) = n
pos_part (negsuc n) = 0

abbrev pub neg_part : ℤ → ℕ
neg_part (pos n) = 0
neg_part (negsuc n) = suc n

-- a - b, as an integer.
abbrev pub sub_ℕ : ℕ → ℕ → ℤ
sub_ℕ a b = if leb b a then pos (a - b) else negsuc (b - a - 1)

-- `-n`
abbrev pub neg : ℕ → ℤ
neg n = sub_ℕ 0 n

infixl 65 ◌+ℤ◌
unfoldable pub ◌+ℤ◌ : ℤ → ℤ → ℤ
a +ℤ b = sub_ℕ (pos_part a + pos_part b) (neg_part a + neg_part b)

pub +ℤ_parts :
    (a b : ℤ)
    → pos_part (a +ℤ b) + neg_part a + neg_part b ≡ neg_part (a +ℤ b) + pos_part a + pos_part b
unfolding ◌+ℤ◌
+ℤ_parts a b = ground arith

pub eq_of_parts : (a b : ℤ) → pos_part a + neg_part b ≡ pos_part b + neg_part a → a ≡ b
eq_of_parts a b h = ground arith

pub neg_parts : (n : ℕ) → pos_part (neg n) + n ≡ neg_part (neg n)
neg_parts n = ground arith

pub ruleset int_laws = (arith, +ℤ_parts, eq_of_parts, neg_parts)

pub +ℤ_assoc : (a b c : ℤ) → a +ℤ b +ℤ c ≡ a +ℤ (b +ℤ c)
+ℤ_assoc a b c = omega int_laws

-- A balance that falls, or grows, by what is posted goes on being the sum.
pub fall :
    (c : Bool) (b b' n : ℕ) (o s : ℤ)
    → pos b ≡ o +ℤ s
    → b' + (if c then n else 0) ≡ b
    → pos b' ≡ o +ℤ (s +ℤ (if c then neg n else pos 0))
fall true b b' n o s h k = omega (int_laws, ap pos_part h, ap neg_part h)
fall false b b' n o s h k = omega (int_laws, ap pos_part h, ap neg_part h)

pub rise :
    (c : Bool) (b b' n : ℕ) (o s : ℤ)
    → pos b ≡ o +ℤ s
    → b' ≡ b + (if c then n else 0)
    → pos b' ≡ o +ℤ (s +ℤ (if c then pos n else pos 0))
rise true b b' n o s h k = omega (int_laws, ap pos_part h, ap neg_part h)
rise false b b' n o s h k = omega (int_laws, ap pos_part h, ap neg_part h)
