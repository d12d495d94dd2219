-- ===== src/Base/Int.antt =====
-- Signed integers over the native numbers, with the reading of a 64-bit pattern.
use Prim.Native.Nat.{ℕ, suc, ◌+◌, ◌-◌, ◌%◌, ◌^◌, ◌≤◌, ◌<◌}
use mathlib.Core.Path.{◌≡◌}
use mathlib.Core.Bool.{Bool}
use native.Mathlib.Omega.{arith}
use kubernetes_upgrade_opera.Base.Tests.{ltb, leb, if◌then◌else◌}

-- `negsuc n` is -(n + 1).
pub data ℤ : Type 0 where
  pos : ℕ → ℤ
  negsuc : ℕ → ℤ

abbrev pub pos_part : ℤ → ℕ
pos_part (pos n) = n
pos_part (negsuc n) = 0

abbrev pub neg_part : ℤ → ℕ
neg_part (pos n) = 0
neg_part (negsuc n) = suc n

-- a - b, as an integer.
abbrev pub sub_ℕ : ℕ → ℕ → ℤ
sub_ℕ a b = if leb b a then pos (a - b) else negsuc (b - a - 1)

infixl 65 ◌-ℤ◌ ◌+ℤ◌
unfoldable pub ◌+ℤ◌ : ℤ → ℤ → ℤ
a +ℤ b = sub_ℕ (pos_part a + pos_part b) (neg_part a + neg_part b)

unfoldable pub ◌-ℤ◌ : ℤ → ℤ → ℤ
a -ℤ b = sub_ℕ (pos_part a + neg_part b) (neg_part a + pos_part b)

infix 50 ◌≤ℤ◌
abbrev pub ◌≤ℤ◌ : ℤ → ℤ → Type 0
a ≤ℤ b = pos_part a + neg_part b ≤ pos_part b + neg_part a

abbrev pub ltb_ℤ : ℤ → ℤ → Bool
ltb_ℤ a b = ltb (pos_part a + neg_part b) (pos_part b + neg_part a)

abbrev pub leb_ℤ : ℤ → ℤ → Bool
leb_ℤ a b = leb (pos_part a + neg_part b) (pos_part b + neg_part a)

-- Go's `int64(u)` of a uint64: two's complement.
unfoldable pub int64 : ℕ → ℤ
int64 u = let r = u % 2 ^ 64 in if ltb r (2 ^ 63) then pos r else negsuc (2 ^ 64 - 1 - r)

-- The bit pattern of an int64.
unfoldable pub bits64 : ℤ → ℕ
bits64 (pos n) = n % 2 ^ 64
bits64 (negsuc n) = 2 ^ 64 - 1 - n % 2 ^ 64

-- Go's int64 difference and sum, which wrap.
unfoldable pub sub64 : ℤ → ℤ → ℤ
unfolding int64 bits64
sub64 a b = int64 (bits64 a + (2 ^ 64 - bits64 b))

unfoldable pub add64 : ℤ → ℤ → ℤ
unfolding int64 bits64
add64 a b = int64 (bits64 a + bits64 b)

-- Go's `int32(n)`: the low 32 bits, as a signed number.
unfoldable pub int32 : ℤ → ℤ
int32 (pos n) = let r = n % 2 ^ 32 in if ltb r (2 ^ 31) then pos r else negsuc (2 ^ 32 - 1 - r)
int32 (negsuc n) = let r = n % 2 ^ 32 in if ltb r (2 ^ 31) then negsuc r else pos (2 ^ 32 - 1 - r)

-- An int32 counter that is increased from a wrapped count wraps the next count.
pub int32-suc : (n : ℕ) → int32 (int32 (pos n) +ℤ pos 1) ≡ int32 (pos (suc n))
unfolding int32 ◌+ℤ◌
int32-suc n = ground arith

pub int64_small : (u : ℕ) → u < 2 ^ 63 → int64 u ≡ pos u
unfolding int64
int64_small u h = ground arith

-- In range a difference of two int64 readings does not wrap.
pub sub64_exact : (a b : ℕ) → a < 2 ^ 63 → b < 2 ^ 63 → sub64 (int64 a) (int64 b) ≡ sub_ℕ a b
unfolding sub64
sub64_exact a b ha hb = ground arith

pub add64_exact : (a b : ℕ) → a + b < 2 ^ 63 → add64 (pos a) (pos b) ≡ pos (a + b)
unfolding add64
add64_exact a b h = ground arith
