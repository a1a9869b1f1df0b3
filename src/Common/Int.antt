-- ===== src/Common/Int.antt =====
-- Signed integers over the native numbers: Go's `int`, `int64` and `*big.Int` values.
use Prim.Native.Nat.{ℕ, suc, ◌+◌, ◌-◌, ◌%◌}
use mathlib.Core.Path.{◌≡◌}
use mathlib.Core.Bool.{Bool, true, false}
use native.Mathlib.Omega.{arith}
use ethindexer.Common.Tests.{ltb, leb, ◌==◌, if◌then◌else◌}

-- `negsuc n` is -(n + 1).
pub data ℤ : Type 0 where
  pos : ℕ → ℤ
  negsuc : ℕ → ℤ

abbrev pub pos_part : ℤ → ℕ
pos_part (pos n) = n
pos_part (negsuc n) = 0

abbrev pub neg_part : ℤ → ℕ
neg_part (pos n) = 0
neg_part (negsuc n) = suc n

abbrev pub ltb_ℤ : ℤ → ℤ → Bool
ltb_ℤ a b = ltb (pos_part a + neg_part b) (pos_part b + neg_part a)

abbrev pub leb_ℤ : ℤ → ℤ → Bool
leb_ℤ a b = leb (pos_part a + neg_part b) (pos_part b + neg_part a)

abbrev pub eqb_ℤ : ℤ → ℤ → Bool
eqb_ℤ (pos a) (pos b) = a == b
eqb_ℤ (negsuc a) (negsuc b) = a == b
eqb_ℤ _ _ = false

pub eqb_ℤ→eq : (a b : ℤ) → eqb_ℤ a b ≡ true → a ≡ b
eqb_ℤ→eq a b h = ground arith

-- `x - y`, on numbers of which either may be the larger.
abbrev pub difference : ℕ → ℕ → ℤ
difference x y = if leb y x then pos (x - y) else negsuc (y - x - 1)

abbrev pub sub_ℤ : ℤ → ℤ → ℤ
sub_ℤ a b = difference (pos_part a + neg_part b) (pos_part b + neg_part a)

abbrev pub twice : ℤ → ℤ
twice (pos n) = pos (n + n)
twice (negsuc n) = negsuc (n + n + 1)

abbrev pub int64_size : ℕ
int64_size = 18_446_744_073_709_551_616

abbrev pub int64_limit : ℕ
int64_limit = 9_223_372_036_854_775_808

abbrev signed : ℕ → ℤ
signed n = if ltb n int64_limit then pos n else negsuc (int64_size - 1 - n)

-- The value of an `int64` whose exact result is the argument.
abbrev pub wrap_int64 : ℤ → ℤ
wrap_int64 (pos n) = signed (n % int64_size)
wrap_int64 (negsuc n) = signed (int64_size - 1 - n % int64_size)
