-- ===== src/Store/Postgres/Codec.antt =====
-- That columns are read back as they were sent.
pub mod RoundTrip
use ethindexer.Common.{
  ℕ, zero, suc, ◌*◌, ◌^◌, ◌≤◌, ◌<◌, ◌≡◌, refl, ◌∙◌, ap, inl, inr, List, [], ◌∷◌, Option, none, some,
  true, false, Bool, ℤ, pos, negsuc, arith, length, map, to_be, from_be-to_be, length-to_be, All,
}
use native.Mathlib.Nat.{mul-div_cancel, mul-mod_left}
use ethindexer.Failure.{ok}
use ethindexer.Domain.{
  Hash, Address, BigInt, uint256_size, uint160_size, hash_length, address_length,
}
use ethindexer.Store.Postgres.Columns.{
  Numeric, scaled, decode_postgres_numeric, postgres_numeric, decode_hash, decode_address,
  decode_hashes, decode_topics, decode_optional_address, postgres_address, hash_bytes,
  address_bytes,
}
use ethindexer.Store.Postgres.Driver.{Driver, IsDriver, SameNumber}

ten_pow_pos : (k : ℕ) → 0 < 10 ^ k
ten_pow_pos zero = ground arith
ten_pow_pos (suc k) = ground (arith, ten_pow_pos k)

scaled_up : (i k n : ℕ) → i * 10 ^ k ≡ n → scaled (pos i) (pos k) ≡ some (pos n)
scaled_up i zero n h = ground (arith, h)
scaled_up i (suc k) n h = ground (arith, h)

scaled_down : (k n : ℕ) → scaled (pos (n * 10 ^ suc k)) (negsuc k) ≡ some (pos n)
scaled_down k n =
    ground (arith, mul-mod_left n (10 ^ suc k), mul-div_cancel n (ten_pow_pos (suc k)))

decode_postgres_numeric-SameNumber :
    (required : Bool) (v : Numeric) (n : ℕ)
    → n < uint256_size
    → SameNumber v n
    → decode_postgres_numeric required v ≡ ok (some (pos n))
unfolding decode_postgres_numeric
decode_postgres_numeric-SameNumber required v n small same =
    let (i, k, int, way) = same.magnitude in
    elim way [
      | inl (exp, bound, is) ↦
          ground
            (arith, same.valid, same.nan, same.finite, int, exp, bound, small, scaled_up i k n is)
      | inr (exp, bound, is) ↦
          ground
            (arith, same.valid, same.nan, same.finite, int, exp, bound, is, small, scaled_down k n)
    ]

-- nil, or a number of 256 bits.
abbrev pub FitsNumeric : BigInt → Type 0
FitsNumeric none = Unit
FitsNumeric (some (pos n)) = n < uint256_size
FitsNumeric (some (negsuc n)) = ⊥

module _ (driver : Driver) (is : IsDriver driver) where
  pub decode_postgres_numeric-postgres_numeric :
      (value : BigInt)
      → FitsNumeric value
      → decode_postgres_numeric false (driver.numeric (postgres_numeric value)) ≡ ok value
  unfolding decode_postgres_numeric postgres_numeric
  decode_postgres_numeric-postgres_numeric none fits = ground (arith, is.null)
  decode_postgres_numeric-postgres_numeric (some (pos n)) fits =
      decode_postgres_numeric-SameNumber false (driver.numeric (postgres_numeric (some (pos n)))) n
        fits (is.number n fits)
  decode_postgres_numeric-postgres_numeric (some (negsuc n)) fits = absurd fits

  pub decode_postgres_numeric_required :
      (value : ℕ)
      → value < uint256_size
      → decode_postgres_numeric true (driver.numeric (postgres_numeric (some (pos value))))
        ≡ ok (some (pos value))
  decode_postgres_numeric_required value fits =
      decode_postgres_numeric-SameNumber true (driver.numeric (postgres_numeric (some (pos value))))
        value fits (is.number value fits)

pub decode_hash-hash_bytes :
    (hash : Hash) → hash < uint256_size → decode_hash (hash_bytes hash) ≡ ok hash
unfolding decode_hash
decode_hash-hash_bytes hash fits = ground (arith, length-to_be 32 hash, from_be-to_be 32 hash fits)

pub decode_address-address_bytes :
    (address : Address)
    → address < uint160_size
    → decode_address (address_bytes address) ≡ ok address
unfolding decode_address
decode_address-address_bytes address fits =
    ground (arith, length-to_be 20 address, from_be-to_be 20 address fits)

-- nil, or an address of 160 bits.
abbrev pub FitsAddress : Option Address → Type 0
FitsAddress none = Unit
FitsAddress (some address) = address < uint160_size

pub decode_optional_address-postgres_address :
    (address : Option Address)
    → FitsAddress address
    → decode_optional_address (postgres_address address) ≡ ok address
unfolding decode_optional_address postgres_address
decode_optional_address-postgres_address none fits = refl
decode_optional_address-postgres_address (some address) fits =
    ground (arith, decode_address-address_bytes address fits)

pub decode_hashes-hash_bytes :
    (hashes : List Hash)
    → All (λ hash. hash < uint256_size) hashes
    → decode_hashes (map hash_bytes hashes) ≡ ok hashes
unfolding decode_hashes
decode_hashes-hash_bytes [] fits = refl
decode_hashes-hash_bytes (hash ∷ hashes) (here, rest) =
    ground (arith, decode_hash-hash_bytes hash here, decode_hashes-hash_bytes hashes rest)

length-map : (hashes : List Hash) → length (map hash_bytes hashes) ≡ length hashes
length-map [] = refl
length-map (hash ∷ hashes) = omega (arith, length-map hashes)

pub decode_topics-hash_bytes :
    (hashes : List Hash)
    → length hashes ≤ 4
    → All (λ hash. hash < uint256_size) hashes
    → decode_topics (map hash_bytes hashes) ≡ ok hashes
unfolding decode_topics
decode_topics-hash_bytes hashes few fits =
    ground (arith, few, length-map hashes, decode_hashes-hash_bytes hashes fits)
