-- ===== src/Server/Hex.antt =====
-- go-ethereum's hexadecimal texts, and the parsers of internal/server/transactions.go and
-- internal/server/events.go that use them.
use ethindexer.Common.{◌+◌, ◌*◌, ◌<◌, ◌≡◌, ◌∷◌, Bool, true, false, ◌&&◌, ◌==◌, length, Bytes}
use ethindexer.Failure.{Result, ok, ◌>>◌, guard, invalid_transaction_hash, invalid_event_address}
use ethindexer.Domain.{Hash, Address, hash_length, address_length, uint256_size, uint160_size}
use ethindexer.Server.Numbers.{Text}

-- `Hash.Hex`, `common.HexToHash`, `common.IsHexHash` and the same of addresses, `hexutil.Encode`.
pub record Hex : Type 0 where
  pub hash_hex : Hash → Text
  pub hex_to_hash : Text → Hash
  pub is_hex_hash : Text → Bool
  pub address_hex : Address → Text
  pub hex_to_address : Text → Address
  pub is_hex_address : Text → Bool
  pub encode : Bytes → Text

abbrev pub has_prefix_0x : Text → Bool
has_prefix_0x (a ∷ b ∷ text) = a == 48 && b == 120
has_prefix_0x _ = false

-- What the library documents: a text that it prints is `0x` and two digits for each byte, is valid,
-- and reads back as the same value.
pub record IsHex (hex : Hex) : Type 0 where
  pub length-hash_hex : (hash : Hash) → length (hex.hash_hex hash) ≡ 66
  pub hash_hex_prefix : (hash : Hash) → has_prefix_0x (hex.hash_hex hash) ≡ true
  pub is_hex_hash-hash_hex : (hash : Hash) → hex.is_hex_hash (hex.hash_hex hash) ≡ true
  pub hex_to_hash-hash_hex :
      (hash : Hash) → hash < uint256_size → hex.hex_to_hash (hex.hash_hex hash) ≡ hash
  pub length-address_hex : (address : Address) → length (hex.address_hex address) ≡ 42
  pub address_hex_prefix : (address : Address) → has_prefix_0x (hex.address_hex address) ≡ true
  pub is_hex_address-address_hex :
      (address : Address) → hex.is_hex_address (hex.address_hex address) ≡ true
  pub hex_to_address-address_hex :
      (address : Address)
      → address < uint160_size
      → hex.hex_to_address (hex.address_hex address) ≡ address

module _ (hex : Hex) where
  unfoldable pub parse_transaction_hash : Text → Result Hash
  parse_transaction_hash value = do
    guard (length value == 2 + 2 * hash_length && has_prefix_0x value && hex.is_hex_hash value)
        invalid_transaction_hash
    ok (hex.hex_to_hash value)

  unfoldable pub parse_event_address : Text → Result Address
  parse_event_address value = do
    guard
        (length value == 2 + 2 * address_length && has_prefix_0x value && hex.is_hex_address value)
        invalid_event_address
    ok (hex.hex_to_address value)
