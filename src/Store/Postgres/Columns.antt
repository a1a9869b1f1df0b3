-- ===== src/Store/Postgres/Columns.antt =====
-- The conversions of internal/store/postgres_indexer.go and internal/store/postgres_scan.go between
-- Go's values and the columns of the tables. `bytea` is a list of bytes, NULL is none.
use ethindexer.Common.{
  ℕ, zero, suc, ◌+◌, ◌-◌, ◌*◌, ◌/◌, ◌%◌, ◌^◌, List, [], ◌∷◌, Option, none, some, Bool, true, false,
  not, ◌||◌, ◌&&◌, ◌==◌, leb, ltb, if◌then◌else◌, length, ℤ, pos, negsuc, leb_ℤ, Bytes, to_be,
  from_be,
}
use ethindexer.Failure.{Result, ok, err, ◌>>=◌, ◌>>◌, guard, panicked, inconsistent_data}
use ethindexer.Domain.{Hash, Address, BigInt, hash_length, address_length, uint256_size}

abbrev pub max_int64 : ℕ
max_int64 = 9_223_372_036_854_775_807

abbrev pub max_int32 : ℕ
max_int32 = 2_147_483_647

unfoldable pub postgres_int64 : ℕ → Result ℤ
postgres_int64 value = do guard (leb value max_int64) panicked; ok (pos value)

unfoldable pub postgres_int32 : ℕ → Result ℤ
postgres_int32 value = do guard (leb value max_int32) panicked; ok (pos value)

unfoldable pub postgres_count : ℤ → Result ℤ
postgres_count value = do
  guard (leb_ℤ (pos 0) value && leb_ℤ value (pos max_int32)) panicked
  ok value

unfoldable pub decode_postgres_uint64 : ℤ → Result ℕ
decode_postgres_uint64 (negsuc n) = err inconsistent_data
decode_postgres_uint64 (pos n) = ok n

unfoldable pub decode_postgres_uint32 : ℤ → Result ℕ
decode_postgres_uint32 (negsuc n) = err inconsistent_data
decode_postgres_uint32 (pos n) = ok n

unfoldable pub decode_postgres_uint8 : ℤ → Result ℕ
decode_postgres_uint8 (negsuc n) = err inconsistent_data
decode_postgres_uint8 (pos n) = do guard (leb n 255) inconsistent_data; ok n

-- `pgtype.Numeric`: `int * 10 ^ exp`.
pub record Numeric : Type 0 where
  pub int : BigInt
  pub exp : ℤ  -- int32
  pub nan : Bool
  pub finite : Bool  -- `InfinityModifier == Finite`
  pub valid : Bool

abbrev pub null_numeric : Numeric
null_numeric = record { int = none; exp = pos 0; nan = false; finite = true; valid = false }

unfoldable pub postgres_numeric : BigInt → Numeric
postgres_numeric none = null_numeric
postgres_numeric (some value) = record {
  int = some value;
  exp = pos 0;
  nan = false;
  finite = true;
  valid = true;
}

-- `value.Sign() >= 0 && value.BitLen() <= 256`
abbrev pub is_uint256 : ℤ → Bool
is_uint256 (pos n) = ltb n uint256_size
is_uint256 (negsuc n) = false

abbrev times : ℤ → ℕ → ℤ
times (pos n) power = pos (n * power)
times (negsuc n) power = negsuc ((n + 1) * power - 1)

-- `QuoRem` by a positive divisor, for a value that it divides; none has a remainder.
abbrev divided : ℤ → ℕ → Option ℤ
divided (pos n) power = if n % power == 0 then some (pos (n / power)) else none
divided (negsuc n) power =
    if (n + 1) % power == 0 then some (negsuc ((n + 1) / power - 1)) else none

abbrev int_or_zero : BigInt → ℤ
int_or_zero none = pos 0
int_or_zero (some value) = value

-- The integer `int * 10 ^ exp`, if it is one.
abbrev pub scaled : ℤ → ℤ → Option ℤ
scaled integer (pos zero) = some integer
scaled integer (pos (suc k)) = some (times integer (10 ^ suc k))
scaled integer (negsuc k) = divided integer (10 ^ suc k)

abbrev in_uint256 : Option ℤ → Result BigInt
in_uint256 none = err inconsistent_data
in_uint256 (some integer) = do guard (is_uint256 integer) inconsistent_data; ok (some integer)

-- `required` is whether NULL is an error.
unfoldable pub decode_postgres_numeric : Bool → Numeric → Result BigInt
decode_postgres_numeric required value =
    if not value.valid then (if required then err inconsistent_data else ok none) else (do
      guard (not (value.nan || not value.finite)) inconsistent_data
      guard (leb_ℤ (negsuc 77) value.exp && leb_ℤ value.exp (pos 78)) inconsistent_data
      in_uint256 (scaled (int_or_zero value.int) value.exp))

unfoldable pub decode_hash : Bytes → Result Hash
decode_hash value = do guard (length value == hash_length) inconsistent_data; ok (from_be 0 value)

unfoldable pub decode_address : Bytes → Result Address
decode_address value = do
  guard (length value == address_length) inconsistent_data
  ok (from_be 0 value)

abbrev pub hash_bytes : Hash → Bytes
hash_bytes hash = to_be hash_length hash

abbrev pub address_bytes : Address → Bytes
address_bytes address = to_be address_length address

unfoldable pub postgres_address : Option Address → Option Bytes
postgres_address none = none
postgres_address (some address) = some (address_bytes address)

unfoldable pub decode_optional_address : Option Bytes → Result (Option Address)
decode_optional_address none = ok none
decode_optional_address (some value) = do address ← decode_address value; ok (some address)

-- The loop of `decodeTopics`.
unfoldable pub decode_hashes : List Bytes → Result (List Hash)
decode_hashes [] = ok []
decode_hashes (value ∷ values) = do
  topic ← decode_hash value
  topics ← decode_hashes values
  ok (topic ∷ topics)

unfoldable pub decode_topics : List Bytes → Result (List Hash)
decode_topics values = do guard (leb (length values) 4) inconsistent_data; decode_hashes values
