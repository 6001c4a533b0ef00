-- ===== src/Base/Int.antt =====
-- Go's signed integers. `negsuc n` is -(n + 1).
use Prim.Native.Nat.{ℕ, suc, ◌+◌, ◌-◌, ◌%◌, ◌^◌, ◌≤◌, ◌<◌}
use mathlib.Core.Path.{◌≡◌}
use mathlib.Core.Bool.{Bool, true}
use native.Mathlib.Omega.{arith}
use m_tlsling.Base.Tests.{leb, ltb, if◌then◌else◌}

pub data ℤ : Type 0 where
  pos : ℕ → ℤ
  negsuc : ℕ → ℤ

abbrev pub pos_part : ℤ → ℕ
pos_part (pos n) = n
pos_part (negsuc n) = 0

abbrev pub neg_part : ℤ → ℕ
neg_part (pos n) = 0
neg_part (negsuc n) = suc n

infix 50 ◌≤ℤ◌
abbrev pub ◌≤ℤ◌ : ℤ → ℤ → Type 0
a ≤ℤ b = pos_part a + neg_part b ≤ pos_part b + neg_part a

-- `a <= b`
abbrev pub lebℤ : ℤ → ℤ → Bool
lebℤ a b = leb (pos_part a + neg_part b) (pos_part b + neg_part a)

pub lebℤ→≤ℤ : (a b : ℤ) → lebℤ a b ≡ true → a ≤ℤ b
lebℤ→≤ℤ a b h = ground arith

pub ≤ℤ→lebℤ : (a b : ℤ) → a ≤ℤ b → lebℤ a b ≡ true
≤ℤ→lebℤ a b h = ground arith

-- The value that an `int64` keeps of `p - n`, for `n` up to 2^64.
abbrev pub int64_of : ℕ → ℕ → ℤ
int64_of p n =
    let bits = (p + 2 ^ 64 - n) % 2 ^ 64 in
    if ltb bits (2 ^ 63) then pos bits else negsuc (2 ^ 64 - bits - 1)

-- `a - b` on `int64`.
unfoldable pub sub_int64 : ℤ → ℤ → ℤ
sub_int64 a b = int64_of (pos_part a + neg_part b) (neg_part a + pos_part b)

-- The value is one of an `int64`.
abbrev pub IsInt64 : ℤ → Type 0
IsInt64 (pos n) = n < 2 ^ 63
IsInt64 (negsuc n) = n < 2 ^ 63
