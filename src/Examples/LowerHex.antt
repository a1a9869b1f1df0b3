-- ===== src/Examples/LowerHex.antt =====
-- A concrete choice of the hexadecimal functions: lower-case digits, without a checksum.
use ethindexer.Common.{
  ℕ, ◌+◌, ◌-◌, ◌*◌, ◌/◌, ◌%◌, ◌≡◌, refl, [], ◌∷◌, true, arith, ltb, if◌then◌else◌, length, All,
  drop, Bytes, IsByte, to_be, from_be, length-to_be, from_be-to_be, to_be-IsByte,
}
use ethindexer.Server.Numbers.{Text}
use ethindexer.Server.Hex.{Hex, IsHex}

abbrev nibble : ℕ → ℕ
nibble d = if ltb d 10 then 48 + d else 87 + d

abbrev nibble_value : ℕ → ℕ
nibble_value c = if ltb c 58 then c - 48 else c - 87

abbrev nibbles : Bytes → Text
nibbles [] = []
nibbles (b ∷ bytes) = nibble (b / 16) ∷ nibble (b % 16) ∷ nibbles bytes

abbrev unhex : Text → Bytes
unhex [] = []
unhex (c ∷ []) = []
unhex (c ∷ d ∷ text) = (nibble_value c * 16 + nibble_value d) ∷ unhex text

length-nibbles : (bytes : Bytes) → length (nibbles bytes) ≡ 2 * length bytes
length-nibbles [] = refl
length-nibbles (b ∷ bytes) = omega (arith, length-nibbles bytes)

unhex-nibbles : (bytes : Bytes) → All IsByte bytes → unhex (nibbles bytes) ≡ bytes
unhex-nibbles [] h = refl
unhex-nibbles (b ∷ bytes) (here, rest) = ground (arith, here, unhex-nibbles bytes rest)

abbrev print : ℕ → ℕ → Text
print width n = 48 ∷ 120 ∷ nibbles (to_be width n)

abbrev read : Text → ℕ
read text = from_be 0 (unhex (drop 2 text))

length-print : (width n : ℕ) → length (print width n) ≡ 2 + 2 * width
length-print width n = omega (arith, length-nibbles (to_be width n), length-to_be width n)

read-print : (width n : ℕ) → from_be 0 (to_be width n) ≡ n → read (print width n) ≡ n
read-print width n h = ground (arith, h, unhex-nibbles (to_be width n) (to_be-IsByte width n))

abbrev pub lower_hex : Hex
lower_hex = record {
  hash_hex = print 32;
  hex_to_hash = read;
  is_hex_hash = λ text. true;
  address_hex = print 20;
  hex_to_address = read;
  is_hex_address = λ text. true;
  encode = λ bytes. 48 ∷ 120 ∷ nibbles bytes;
}

pub lower_hex-IsHex : IsHex lower_hex
lower_hex-IsHex = record {
  length-hash_hex = λ hash. length-print 32 hash;
  hash_hex_prefix = λ hash. refl;
  is_hex_hash-hash_hex = λ hash. refl;
  hex_to_hash-hash_hex = λ hash fits. read-print 32 hash (from_be-to_be 32 hash fits);
  length-address_hex = λ address. length-print 20 address;
  address_hex_prefix = λ address. refl;
  is_hex_address-address_hex = λ address. refl;
  hex_to_address-address_hex =
      λ address fits. read-print 20 address (from_be-to_be 20 address fits);
}
