-- ===== src/Server/Numbers/Laws.antt =====
-- The loop of `parseBlockNumber`, and that it reads back what is printed in decimal.
use ethindexer.Common.{
  ℕ, zero, suc, ◌+◌, ◌-◌, ◌*◌, ◌/◌, ◌%◌, ◌≤◌, ◌<◌, ◌≡◌, refl, [], ◌∷◌, ◌++◌, true, false, ltb,
  if◌then◌else◌, arith,
}
use ethindexer.Failure.{ok, err, ◌>>=◌, syntax, out_of_range}
use ethindexer.Domain.{uint64_size}
use ethindexer.Server.Numbers.{
  Text, is_empty, is_decimal, scan, parse_block_number, digits, decimal,
}

-- The number that decimal digits spell behind `n`, without a bound.
unfoldable pub value : ℕ → Text → ℕ
value n [] = n
value n (character ∷ text) = value (n * 10 + (character - 48)) text

value_grows : (n : ℕ) (text : Text) → n ≤ value n text
unfolding value
value_grows n [] = omega arith
value_grows n (c ∷ text) = omega (arith, value_grows (n * 10 + (c - 48)) text)

scan_value :
    (n : ℕ) (text : Text)
    → n < uint64_size
    → scan n text ≡ (if ltb (value n text) uint64_size then ok (value n text) else err out_of_range)
unfolding scan value
scan_value n [] small = ground (arith, small)
scan_value n (c ∷ text) small =
    ground (arith, scan_value (n * 10 + (c - 48)) text, value_grows (n * 10 + (c - 48)) text)

pub parse_block_number_cases :
    (text : Text)
    → parse_block_number text ≡ (
        if is_empty text
        then err syntax
        else (if is_decimal text
            then (if ltb (value 0 text) uint64_size then ok (value 0 text) else err out_of_range)
            else err syntax))
unfolding parse_block_number
parse_block_number_cases [] = refl
parse_block_number_cases (c ∷ text) = ground (arith, scan_value 0 (c ∷ text) (omega arith))

scan-append : (n : ℕ) (xs ys : Text) → scan n (xs ++ ys) ≡ (scan n xs >>= λ m. scan m ys)
unfolding scan
scan-append n [] ys = refl
scan-append n (x ∷ xs) ys = ground (arith, scan-append (n * 10 + (x - 48)) xs ys)

is_decimal-append :
    (xs ys : Text) → is_decimal xs ≡ true → is_decimal ys ≡ true → is_decimal (xs ++ ys) ≡ true
unfolding is_decimal
is_decimal-append [] ys h k = k
is_decimal-append (x ∷ xs) ys h k = ground (arith, h, is_decimal-append xs ys, k)

is_decimal-digits : (fuel n : ℕ) → is_decimal (digits fuel n) ≡ true
unfolding digits is_decimal
is_decimal-digits zero n = refl
is_decimal-digits (suc fuel) n = ground (
  arith,
  is_decimal-append (digits fuel (n / 10)) ((48 + n % 10) ∷ []) (is_decimal-digits fuel (n / 10)),
)

scan-digits : (fuel n : ℕ) → n < fuel → n < uint64_size → scan 0 (digits fuel n) ≡ ok n
unfolding digits scan
scan-digits zero n enough small = absurd (omega (arith, enough))
scan-digits (suc fuel) n enough small = ground (
  arith,
  small,
  enough,
  scan-append 0 (digits fuel (n / 10)) ((48 + n % 10) ∷ []),
  scan-digits fuel (n / 10),
)

append_some : (xs : Text) (c : ℕ) → is_empty (xs ++ (c ∷ [])) ≡ false
append_some [] c = refl
append_some (x ∷ xs) c = refl

digits_some : (fuel n : ℕ) → is_empty (digits (suc fuel) n) ≡ false
unfolding digits
digits_some fuel n = ground (arith, append_some (digits fuel (n / 10)) (48 + n % 10))

-- Every 64-bit number is read back from its decimal digits.
pub parse_block_number-decimal : (n : ℕ) → n < uint64_size → parse_block_number (decimal n) ≡ ok n
unfolding parse_block_number
parse_block_number-decimal n small =
    ground (
      arith,
      digits_some n n,
      is_decimal-digits (suc n) n,
      scan-digits (suc n) n (omega arith) small,
    )
