-- ===== src/Common/ByteStrings.antt =====
-- Byte strings as lists of numbers: slices, and numbers in big-endian order.
use Prim.Native.Nat.{ℕ, zero, suc, ◌+◌, ◌*◌, ◌/◌, ◌%◌, ◌<◌}
use mathlib.Core.Path.{◌≡◌, refl}
use mathlib.Core.Bool.{Bool, true, false, ◌&&◌}
use mathlib.Core.List.{List, [], ◌∷◌, ◌++◌}
use native.Mathlib.Omega.{arith}
use ethindexer.Common.Tests.{◌==◌, ==_refl}
use ethindexer.Common.Lists.{length, length-append, All}
use ethindexer.Common.Slices.{All-append, append_nil, append_snoc}

abbrev pub Bytes : Type 0
Bytes = List ℕ

-- The number of values of `width` bytes.
abbrev pub capacity : ℕ → ℕ
capacity zero = 1
capacity (suc width) = 256 * capacity width

-- The low `width` bytes of a number, the most significant first.
unfoldable pub to_be : ℕ → ℕ → Bytes
to_be zero n = []
to_be (suc width) n = to_be width (n / 256) ++ (n % 256 ∷ [])

-- The number that bytes spell behind `acc`.
unfoldable pub from_be : ℕ → Bytes → ℕ
from_be acc [] = acc
from_be acc (b ∷ bytes) = from_be (acc * 256 + b) bytes

abbrev pub IsByte : ℕ → Type 0
IsByte b = b < 256

pub length-to_be : (width n : ℕ) → length (to_be width n) ≡ width
unfolding to_be
length-to_be zero n = refl
length-to_be (suc width) n =
    omega (
      arith,
      length-append {0} (to_be width (n / 256)) (n % 256 ∷ []),
      length-to_be width (n / 256),
    )

pub from_be-append :
    (acc : ℕ) (xs ys : Bytes) → from_be acc (xs ++ ys) ≡ from_be (from_be acc xs) ys
unfolding from_be
from_be-append acc [] ys = refl
from_be-append acc (x ∷ xs) ys = from_be-append (acc * 256 + x) xs ys

pub from_be-to_be : (width n : ℕ) → n < capacity width → from_be 0 (to_be width n) ≡ n
unfolding to_be from_be
from_be-to_be zero n small = omega (arith, small)
from_be-to_be (suc width) n small = ground (
  arith,
  small,
  from_be-append 0 (to_be width (n / 256)) (n % 256 ∷ []),
  from_be-to_be width (n / 256) (omega (arith, small)),
)

to_be_from :
    (width acc : ℕ) (bytes : Bytes)
    → All IsByte bytes
    → to_be (width + length bytes) (from_be acc bytes) ≡ to_be width acc ++ bytes
unfolding to_be from_be
to_be_from width acc [] h = ground (arith, append_nil (to_be width acc))
to_be_from width acc (b ∷ bytes) (here, rest) = ground (
  arith,
  here,
  to_be_from (suc width) (acc * 256 + b) bytes rest,
  append_snoc (to_be width acc) bytes b,
)

pub to_be-from_be :
    (bytes : Bytes) → All IsByte bytes → to_be (length bytes) (from_be 0 bytes) ≡ bytes
unfolding to_be
to_be-from_be bytes h = ground (arith, to_be_from 0 0 bytes h)

from_be_bound :
    (width acc : ℕ) (bytes : Bytes)
    → acc < capacity width
    → All IsByte bytes
    → from_be acc bytes < capacity (width + length bytes)
unfolding from_be
from_be_bound width acc [] small h = ground (arith, small)
from_be_bound width acc (b ∷ bytes) small (here, rest) = ground (
  arith,
  small,
  here,
  from_be_bound (suc width) (acc * 256 + b) bytes (omega (arith, small, here)) rest,
)

pub from_be-capacity :
    (bytes : Bytes) → All IsByte bytes → from_be 0 bytes < capacity (length bytes)
from_be-capacity bytes h = ground (arith, from_be_bound 0 0 bytes (omega arith) h)

pub to_be-IsByte : (width n : ℕ) → All IsByte (to_be width n)
unfolding to_be
to_be-IsByte zero n = tt
to_be-IsByte (suc width) n =
    All-append IsByte (to_be width (n / 256)) (n % 256 ∷ []) (to_be-IsByte width (n / 256))
      (omega arith, tt)

-- `left == right` on strings and arrays of bytes.
unfoldable pub same_bytes : Bytes → Bytes → Bool
same_bytes [] [] = true
same_bytes [] (y ∷ ys) = false
same_bytes (x ∷ xs) [] = false
same_bytes (x ∷ xs) (y ∷ ys) = x == y && same_bytes xs ys

pub same_bytes_refl : (bytes : Bytes) → same_bytes bytes bytes ≡ true
unfolding same_bytes
same_bytes_refl [] = refl
same_bytes_refl (c ∷ bytes) = ground (arith, same_bytes_refl bytes, ==_refl c)

pub same_bytes→eq : (xs ys : Bytes) → same_bytes xs ys ≡ true → xs ≡ ys
unfolding same_bytes
same_bytes→eq [] [] h = refl
same_bytes→eq [] (y ∷ ys) h = absurd (ground (arith, h))
same_bytes→eq (x ∷ xs) [] h = absurd (ground (arith, h))
same_bytes→eq (x ∷ xs) (y ∷ ys) h = ground (arith, h, same_bytes→eq xs ys)
