-- ===== src/Server/Numbers/Decimal.antt =====
-- What `parseBlockNumber` of internal/server/blocks.go accepts, by the decimal place-value system.
use ethindexer.Common.{
  ℕ, suc, ◌+◌, ◌-◌, ◌*◌, ◌^◌, ◌≡◌, refl, [], ◌∷◌, Option, none, some, ◌==◌, ltb, if◌then◌else◌,
  arith, length,
}
use ethindexer.Failure.{Result, ok, err, syntax, out_of_range}
use ethindexer.Domain.{uint64_size}
use ethindexer.Server.Numbers.{Text, is_digit, is_decimal, parse_block_number}
use ethindexer.Server.Numbers.Laws.{value, parse_block_number_cases}

-- Where a byte stands in a text.
abbrev position : ℕ → Text → Option ℕ
position byte [] = none
position byte (x ∷ xs) =
    if byte == x then some 0 else elim (position byte xs) [ none ↦ none | some i ↦ some (suc i) ]

-- The bytes of "0123456789".
abbrev ten_digits : Text
ten_digits = 48 ∷ 49 ∷ 50 ∷ 51 ∷ 52 ∷ 53 ∷ 54 ∷ 55 ∷ 56 ∷ 57 ∷ []

-- The digit that a byte stands for is its place among the ten digits.
unfoldable pub digit_value : ℕ → Option ℕ
digit_value byte = position byte ten_digits

abbrev weighted : ℕ → Option ℕ → Option ℕ → Option ℕ
weighted weight none low = none
weighted weight (some digit) none = none
weighted weight (some digit) (some low) = some (digit * weight + low)

-- A digit counts ten to the number of the digits behind it.
unfoldable pub places : Text → Option ℕ
places [] = some 0
places (byte ∷ text) = weighted (10 ^ length text) (digit_value byte) (places text)

-- The number that a text spells in decimal: a text without a digit spells none.
abbrev pub decimal_number : Text → Option ℕ
decimal_number [] = none
decimal_number (byte ∷ text) = places (byte ∷ text)

digit_value_lem : (c : ℕ) → digit_value c ≡ (if is_digit c then some (c - 48) else none)
unfolding digit_value
digit_value_lem c = ground arith

shift : (n d p low : ℕ) → (n * 10 + d) * p + low ≡ n * (p * 10) + (d * p + low)
shift n d p low = omega arith

value_shift : (n : ℕ) (text : Text) → value n text ≡ n * 10 ^ length text + value 0 text
unfolding value
value_shift n [] = omega arith
value_shift n (c ∷ text) = ground (
  arith,
  value_shift (n * 10 + (c - 48)) text,
  shift n (c - 48) (10 ^ length text) (value 0 text),
  value_shift (c - 48) text,
)

places_lem : (text : Text) → places text ≡ (if is_decimal text then some (value 0 text) else none)
unfolding places is_decimal value
places_lem [] = refl
places_lem (c ∷ text) =
    ground (arith, digit_value_lem c, places_lem text, value_shift (c - 48) text)

-- A number as the result of `strconv.ParseUint` with 64 bits.
abbrev pub as_uint64 : Option ℕ → Result ℕ
as_uint64 none = err syntax
as_uint64 (some n) = if ltb n uint64_size then ok n else err out_of_range

-- `parseBlockNumber` gives the number that the text spells in decimal, leading zeros allowed, if it
-- fits in 64 bits; a larger number is out of range, and a text that is empty or holds a byte other
-- than "0" to "9" is a syntax error.
pub parse_block_number_lem :
    (text : Text) → parse_block_number text ≡ as_uint64 (decimal_number text)
parse_block_number_lem [] = parse_block_number_cases []
parse_block_number_lem (c ∷ text) =
    ground (arith, parse_block_number_cases (c ∷ text), places_lem (c ∷ text))
