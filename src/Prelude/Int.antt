-- ===== src/Prelude/Int.antt =====
-- `std::int64_t` values as signed integers over the native numbers.
use Prim.Native.Nat.{ℕ, zero, suc, ◌+◌, ◌-◌, ◌≤◌, ◌<◌, ◌^◌}
use mathlib.Core.Path.{◌≡◌}
use mathlib.Core.Bool.{Bool, true, not}
use native.Mathlib.Omega.{arith}
use pageforge.Prelude.Tests.{ltb, ◌==◌, if◌then◌else◌}

-- `negsuc n` is -(n + 1).
pub data ℤ : Type 0 where
  pos : ℕ → ℤ
  negsuc : ℕ → ℤ

abbrev pub pos_part : ℤ → ℕ
pos_part (pos n) = n
pos_part (negsuc n) = 0

abbrev pub neg_part : ℤ → ℕ
neg_part (pos n) = 0
neg_part (negsuc n) = suc n

infix 50 ◌<ℤ◌ ◌≤ℤ◌
abbrev pub ◌<ℤ◌ : ℤ → ℤ → Type 0
a <ℤ b = pos_part a + neg_part b < pos_part b + neg_part a

abbrev pub ◌≤ℤ◌ : ℤ → ℤ → Type 0
a ≤ℤ b = pos_part a + neg_part b ≤ pos_part b + neg_part a

abbrev pub ltb_ℤ : ℤ → ℤ → Bool
ltb_ℤ a b = ltb (pos_part a + neg_part b) (pos_part b + neg_part a)

abbrev pub eq_ℤ : ℤ → ℤ → Bool
eq_ℤ a b = (pos_part a + neg_part b) == (pos_part b + neg_part a)

-- The values of an `int64_t`.
abbrev pub IsI64 : ℤ → Type 0
IsI64 a = (pos_part a < 2 ^ 63) × (neg_part a ≤ 2 ^ 63)

-- `a + 1` and `a - 1`.
unfoldable pub suc_ℤ : ℤ → ℤ
suc_ℤ (pos n) = pos (n + 1)
suc_ℤ (negsuc zero) = pos 0
suc_ℤ (negsuc (suc n)) = negsuc n

unfoldable pub pred_ℤ : ℤ → ℤ
pred_ℤ (pos zero) = negsuc 0
pred_ℤ (pos (suc n)) = pos n
pred_ℤ (negsuc n) = negsuc (n + 1)

-- Nothing lies between a number and the next one.
pub suc_ℤ-least : (a b : ℤ) → ltb_ℤ b (suc_ℤ a) ≡ not (ltb_ℤ a b)
unfolding suc_ℤ
suc_ℤ-least (pos n) (pos m) = ground arith
suc_ℤ-least (pos n) (negsuc m) = ground arith
suc_ℤ-least (negsuc zero) (pos m) = ground arith
suc_ℤ-least (negsuc zero) (negsuc m) = ground arith
suc_ℤ-least (negsuc (suc n)) (pos m) = ground arith
suc_ℤ-least (negsuc (suc n)) (negsuc m) = ground arith

pub pred_ℤ-greatest : (a b : ℤ) → ltb_ℤ (pred_ℤ a) b ≡ not (ltb_ℤ b a)
unfolding pred_ℤ
pred_ℤ-greatest (pos zero) (pos m) = ground arith
pred_ℤ-greatest (pos zero) (negsuc m) = ground arith
pred_ℤ-greatest (pos (suc n)) (pos m) = ground arith
pred_ℤ-greatest (pos (suc n)) (negsuc m) = ground arith
pred_ℤ-greatest (negsuc n) (pos m) = ground arith
pred_ℤ-greatest (negsuc n) (negsuc m) = ground arith

pub eq_ℤ→eq : (a b : ℤ) → eq_ℤ a b ≡ true → a ≡ b
eq_ℤ→eq a b h = ground arith

-- `std::bit_cast<std::uint64_t>` of an `int64_t`, two's complement.
unfoldable pub to_u64 : ℤ → ℕ
to_u64 (pos n) = n
to_u64 (negsuc n) = 2 ^ 64 - 1 - n

-- `std::bit_cast<std::int64_t>` of a `uint64_t`.
unfoldable pub from_u64 : ℕ → ℤ
from_u64 w = if ltb w (2 ^ 63) then pos w else negsuc (2 ^ 64 - 1 - w)

pub to_u64-lt : (a : ℤ) → IsI64 a → to_u64 a < 2 ^ 64
unfolding to_u64
to_u64-lt (pos n) h = omega arith
to_u64-lt (negsuc n) h = omega arith

pub from_u64-to_u64 : (a : ℤ) → IsI64 a → from_u64 (to_u64 a) ≡ a
unfolding from_u64 to_u64
from_u64-to_u64 (pos n) h = ground arith
from_u64-to_u64 (negsuc n) h = ground arith

pub to_u64-from_u64 : (w : ℕ) → w < 2 ^ 64 → to_u64 (from_u64 w) ≡ w
unfolding from_u64 to_u64
to_u64-from_u64 w h = ground arith

pub from_u64-IsI64 : (w : ℕ) → w < 2 ^ 64 → IsI64 (from_u64 w)
unfolding from_u64
from_u64-IsI64 w h = ground arith
