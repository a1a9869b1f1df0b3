-- ===== src/Server/Numbers.antt =====
-- Decimal numbers of the HTTP API: `parseBlockNumber` of internal/server/blocks.go and
-- `optionalBigIntString` of internal/server/response.go, with what they use of `strconv` and
-- `math/big`. A Go string is the list of its bytes. The bytes of a character beyond ASCII are no
-- digits, and neither is the character, so the loop over characters is a loop over bytes.
pub mod Decimal
pub mod Laws
use ethindexer.Common.{
  ℕ, zero, suc, ◌+◌, ◌-◌, ◌*◌, ◌/◌, ◌%◌, ◌^◌, List, [], ◌∷◌, ◌++◌, Option, none, some, Bool, true,
  false, ◌&&◌, ltb, leb, if◌then◌else◌, ℤ, pos, negsuc,
}
use ethindexer.Failure.{Result, ok, err, ◌>>=◌, ◌>>◌, guard, syntax, out_of_range}
use ethindexer.Domain.{BigInt, uint64_size}

-- The bytes of a string.
abbrev pub Text : Type 0
Text = List ℕ

abbrev pub is_empty {ℓ} : {A : Type ℓ} → List A → Bool
is_empty [] = true
is_empty (x ∷ xs) = false

-- `'0' <= character && character <= '9'`
abbrev pub is_digit : ℕ → Bool
is_digit character = leb 48 character && leb character 57

unfoldable pub is_decimal : Text → Bool
is_decimal [] = true
is_decimal (character ∷ text) = is_digit character && is_decimal text

-- The loop of `strconv.ParseUint` at base 10 and 64 bits, on digits.
unfoldable pub scan : ℕ → Text → Result ℕ
scan n [] = ok n
scan n (character ∷ text) =
    let rest = scan (n * 10 + (character - 48)) text in
    if ltb (n * 10 + (character - 48)) uint64_size then rest else err out_of_range

unfoldable pub parse_block_number : Text → Result ℕ
parse_block_number value = do
  guard (if is_empty value then false else is_decimal value) syntax
  scan 0 value

-- The digits of a number, on fuel: one digit takes one step.
unfoldable pub digits : ℕ → ℕ → Text
digits zero n = []
digits (suc fuel) n =
    let higher = digits fuel (n / 10) in
    if ltb n 10 then (48 + n) ∷ [] else higher ++ ((48 + n % 10) ∷ [])

abbrev pub decimal : ℕ → Text
decimal n = digits (suc n) n

-- `value.String()` of a `*big.Int`.
unfoldable pub big_int_string : ℤ → Text
big_int_string (pos n) = decimal n
big_int_string (negsuc n) = 45 ∷ decimal (suc n)

unfoldable pub optional_big_int_string : BigInt → Option Text
optional_big_int_string none = none
optional_big_int_string (some value) = some (big_int_string value)
