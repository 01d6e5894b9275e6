-- ===== src/Base/Int.antt =====
-- Signed 64-bit times: integers by their two parts, compared and added as `i64` does it.
use Prim.Native.Nat.{ℕ, suc, ◌+◌, ◌-◌, ◌^◌, ◌≤◌}
use mathlib.Core.Bool.{Bool}
use native.Mathlib.Omega.{arith}
use hyperdir.Base.Tests.{ltb, leb, if◌then◌else◌}

-- `negsuc n` is -(n + 1).
pub data ℤ : Type 0 where
  pos : ℕ → ℤ
  negsuc : ℕ → ℤ

abbrev pub pos_part : ℤ → ℕ
pos_part (pos n) = n
pos_part (negsuc n) = 0

abbrev pub neg_part : ℤ → ℕ
neg_part (pos n) = 0
neg_part (negsuc n) = suc n

abbrev pub sub_ℕ : ℕ → ℕ → ℤ
sub_ℕ a b = if leb b a then pos (a - b) else negsuc (b - a - 1)

infixl 65 ◌+ℤ◌
unfoldable pub ◌+ℤ◌ : ℤ → ℤ → ℤ
a +ℤ b = sub_ℕ (pos_part a + pos_part b) (neg_part a + neg_part b)

abbrev pub ltz : ℤ → ℤ → Bool
ltz a b = ltb (pos_part a + neg_part b) (pos_part b + neg_part a)

abbrev pub lez : ℤ → ℤ → Bool
lez a b = leb (pos_part a + neg_part b) (pos_part b + neg_part a)

abbrev pub i64_max : ℕ
i64_max = 2 ^ 63 - 1

-- The values of `i64`.
abbrev pub IsI64 : ℤ → Type 0
IsI64 a = (pos_part a ≤ i64_max) × (neg_part a ≤ 2 ^ 63)

clamp_i64 : ℤ → ℤ
clamp_i64 (pos n) = if leb n i64_max then pos n else pos i64_max
clamp_i64 (negsuc n) = if leb n i64_max then negsuc n else negsuc i64_max

-- `i64::saturating_add`
unfoldable pub saturating_add : ℤ → ℤ → ℤ
unfolding ◌+ℤ◌ clamp_i64
saturating_add a b = clamp_i64 (a +ℤ b)

pub saturating_add-IsI64 : (a b : ℤ) → IsI64 (saturating_add a b)
unfolding saturating_add
saturating_add-IsI64 a b = ground arith
