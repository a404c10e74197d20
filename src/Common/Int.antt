-- ===== src/Common/Int.antt =====
-- Signed integers over the native numbers: the values of `int32_t` and `int64_t` fields.
use Prim.Native.Nat.{ℕ, suc, ◌+◌, ◌-◌, ◌≤◌, ◌<◌}
use mathlib.Core.Path.{◌≡◌}
use mathlib.Core.Logic.{◌↔◌}
use native.Mathlib.Omega.{arith}
use mathlib.Core.Bool.{Bool, true, ◌&&◌}
use iot_dev_sys.Common.Tests.{ltb, leb, nat_eq, if◌then◌else◌}

-- `negsuc n` is -(n + 1).
pub data ℤ : Type 0 where
  pos : ℕ → ℤ
  negsuc : ℕ → ℤ

abbrev pub pos_part : ℤ → ℕ
pos_part (pos n) = n
pos_part (negsuc n) = 0

abbrev pub neg_part : ℤ → ℕ
neg_part (pos n) = 0
neg_part (negsuc n) = suc n

-- a - b, as an integer.
abbrev pub sub_ℕ : ℕ → ℕ → ℤ
sub_ℕ a b = if leb b a then pos (a - b) else negsuc (b - a - 1)

infixl 65 ◌+ℤ◌ ◌-ℤ◌
infix 50 ◌≤ℤ◌
unfoldable pub ◌+ℤ◌ : ℤ → ℤ → ℤ
a +ℤ b = sub_ℕ (pos_part a + pos_part b) (neg_part a + neg_part b)

unfoldable pub ◌-ℤ◌ : ℤ → ℤ → ℤ
a -ℤ b = sub_ℕ (pos_part a + neg_part b) (neg_part a + pos_part b)

abbrev pub ◌≤ℤ◌ : ℤ → ℤ → Type 0
a ≤ℤ b = pos_part a + neg_part b ≤ pos_part b + neg_part a

abbrev pub ltb_ℤ : ℤ → ℤ → Bool
ltb_ℤ a b = ltb (pos_part a + neg_part b) (pos_part b + neg_part a)

-- A negative literal of the source.
abbrev pub neg : ℕ → ℤ
neg n = sub_ℕ 0 n

abbrev pub int_eq : ℤ → ℤ → Bool
int_eq a b = nat_eq (pos_part a) (pos_part b) && nat_eq (neg_part a) (neg_part b)

infix 50 ◌<ℤ◌
abbrev pub ◌<ℤ◌ : ℤ → ℤ → Type 0
a <ℤ b = pos_part a + neg_part b < pos_part b + neg_part a

pub int_iff : (a b : ℤ) → (int_eq a b ≡ true) ↔ (a ≡ b)
int_iff (pos m) (pos n) = ground arith
int_iff (pos m) (negsuc n) = ground arith
int_iff (negsuc m) (pos n) = ground arith
int_iff (negsuc m) (negsuc n) = ground arith
