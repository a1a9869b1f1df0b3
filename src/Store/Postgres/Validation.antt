-- ===== src/Store/Postgres/Validation.antt =====
-- `validatePostgresUpdate` of internal/store/postgres_indexer.go and what it calls.
pub mod Bounds
use ethindexer.Common.{
  ℕ, List, [], ◌∷◌, none, some, Bool, true, false, not, ◌||◌, ◌&&◌, ◌==◌, leb, ltb, ℤ, pos, leb_ℤ,
  insert,
}
use ethindexer.Failure.{Result, ok, err, ◌>>=◌, ◌>>◌, guard, invalid_canonical_update}
use ethindexer.Domain.{BigInt, Block, Transaction, Event, BlockBundle, CanonicalUpdate}
use ethindexer.Store.Validate.{BundleMap, validate_replacement, validate_canonical_bundles}
use ethindexer.Store.Postgres.Columns.{max_int64, max_int32, is_uint256}

-- `required` is whether nil is an error.
unfoldable pub validate_uint256 : BigInt → Bool → Result (Unit {0})
validate_uint256 none required = guard (not required) invalid_canonical_update
validate_uint256 (some value) required = guard (is_uint256 value) invalid_canonical_update

unfoldable pub validate_postgres_block : Block → Result (Unit {0})
validate_postgres_block block = do
  guard
      ((leb block.number max_int64 && leb block.timestamp max_int64)
        && (leb block.gas_limit max_int64 && leb block.gas_used max_int64))
      invalid_canonical_update
  guard (leb_ℤ block.transaction_count (pos max_int32)) invalid_canonical_update
  validate_uint256 block.base_fee_per_gas false

unfoldable pub validate_postgres_transaction : Transaction → Result (Unit {0})
validate_postgres_transaction transaction = do
  guard
      ((leb transaction.block_number max_int64 && leb transaction.nonce max_int64)
        && leb transaction.gas_limit max_int64)
      invalid_canonical_update
  guard (leb transaction.index max_int32) invalid_canonical_update
  validate_uint256 transaction.value true
  validate_uint256 transaction.gas_price false
  validate_uint256 transaction.max_fee_per_gas false
  validate_uint256 transaction.max_priority_fee_per_gas false

-- The loops over the transactions and the events of a bundle, and over the bundles.
unfoldable pub validate_transactions : List Transaction → Result (Unit {0})
validate_transactions [] = ok tt
validate_transactions (transaction ∷ transactions) = do
  validate_postgres_transaction transaction
  validate_transactions transactions

unfoldable pub validate_positions : List Event → Result (Unit {0})
validate_positions [] = ok tt
validate_positions (event ∷ events) = do
  guard (leb event.transaction_index max_int32 && leb event.log_index max_int32)
      invalid_canonical_update
  validate_positions events

unfoldable pub validate_bundles : List BlockBundle → Result (Unit {0})
validate_bundles [] = ok tt
validate_bundles (bundle ∷ bundles) = do
  validate_postgres_block bundle.block
  validate_transactions bundle.transactions
  validate_positions bundle.events
  validate_bundles bundles

-- `bundles[bundle.Block.Number] = bundle` for each block.
unfoldable pub bundle_map : List BlockBundle → BundleMap → BundleMap
bundle_map [] bundles = bundles
bundle_map (bundle ∷ rest) bundles = bundle_map rest (insert bundle.block.number bundle bundles)

unfoldable pub validate_postgres_update : CanonicalUpdate → Result (Unit {0})
validate_postgres_update update = do
  guard (not (update.chain_id == 0)) invalid_canonical_update
  guard (leb update.chain_id max_int64) invalid_canonical_update
  guard (leb update.retain_from update.replace_from) invalid_canonical_update
  guard (leb update.retain_from max_int64 && leb update.replace_from max_int64)
      invalid_canonical_update
  validate_replacement update
  validate_canonical_bundles (bundle_map update.blocks [])
  validate_bundles update.blocks
