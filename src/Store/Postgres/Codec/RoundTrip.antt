-- ===== src/Store/Postgres/Codec/RoundTrip.antt =====
-- That blocks, transactions and events are read back from the rows that are written for them.
use ethindexer.Common.{ℕ, ◌≤◌, ◌<◌, ◌≡◌, some, arith, pos, All, length, map}
use ethindexer.Failure.{ok}
use ethindexer.Domain.{Block, Transaction, Event, uint256_size, uint160_size}
use ethindexer.Store.Postgres.Columns.{
  max_int64, max_int32, postgres_int64, postgres_int32, postgres_count, decode_postgres_uint64,
  decode_postgres_uint32, decode_postgres_uint8, hash_bytes, address_bytes, postgres_numeric,
  postgres_address,
}
use ethindexer.Store.Postgres.Rows.{
  BlockRow, TransactionRow, EventRow, queue_block, queue_transaction, queue_event, decode_block,
  decode_transaction, decode_event,
}
use ethindexer.Store.Postgres.Driver.{Driver, IsDriver, kept_block, kept_transaction}
use ethindexer.Store.Postgres.Codec.{
  FitsNumeric, FitsAddress, decode_postgres_numeric-postgres_numeric,
  decode_postgres_numeric_required, decode_hash-hash_bytes, decode_address-address_bytes,
  decode_optional_address-postgres_address, decode_topics-hash_bytes,
}

-- The values fit the columns.
pub record FitsBlock (block : Block) : Type 0 where
  pub number : block.number ≤ max_int64
  pub hash : block.hash < uint256_size
  pub parent_hash : block.parent_hash < uint256_size
  pub timestamp : block.timestamp ≤ max_int64
  pub gas_limit : block.gas_limit ≤ max_int64
  pub gas_used : block.gas_used ≤ max_int64
  pub base_fee_per_gas : FitsNumeric block.base_fee_per_gas
  pub transaction_count : (count : ℕ) × (block.transaction_count ≡ pos count) × (count ≤ max_int32)

pub record FitsTransaction (transaction : Transaction) : Type 0 where
  pub hash : transaction.hash < uint256_size
  pub block_number : transaction.block_number ≤ max_int64
  pub block_hash : transaction.block_hash < uint256_size
  pub index : transaction.index ≤ max_int32
  pub kind : transaction.kind ≤ 255
  pub nonce : transaction.nonce ≤ max_int64
  pub sender : transaction.sender < uint160_size
  pub recipient : FitsAddress transaction.recipient
  pub value : (wei : ℕ) × (transaction.value ≡ some (pos wei)) × (wei < uint256_size)
  pub gas_limit : transaction.gas_limit ≤ max_int64
  pub gas_price : FitsNumeric transaction.gas_price
  pub max_fee_per_gas : FitsNumeric transaction.max_fee_per_gas
  pub max_priority_fee_per_gas : FitsNumeric transaction.max_priority_fee_per_gas

pub record FitsEvent (event : Event) : Type 0 where
  pub block_number : event.block_number ≤ max_int64
  pub block_hash : event.block_hash < uint256_size
  pub transaction_hash : event.transaction_hash < uint256_size
  pub transaction_index : event.transaction_index ≤ max_int32
  pub log_index : event.log_index ≤ max_int32
  pub address : event.address < uint160_size
  pub few_topics : length event.topics ≤ 4
  pub topics : All (λ topic. topic < uint256_size) event.topics

module _ (driver : Driver) (is : IsDriver driver) where
  -- A block whose values fit the columns is sent without a panic, and the row that the table keeps is
  -- decoded to the block itself, its time at the resolution of the column.
  pub decode_block-queue_block :
      (block : Block)
      → FitsBlock block
      → (row : BlockRow) × (queue_block block ≡ ok row)
        × (decode_block (kept_block driver row)
            ≡ ok (record block { indexed_at = driver.timestamp block.indexed_at }))
  unfolding queue_block decode_block postgres_int64 postgres_count decode_postgres_uint64
  decode_block-queue_block block fits =
      let (count, counted, few) = fits.transaction_count in
      (
        record {
          number = pos block.number;
          hash = hash_bytes block.hash;
          parent_hash = hash_bytes block.parent_hash;
          timestamp = pos block.timestamp;
          gas_limit = pos block.gas_limit;
          gas_used = pos block.gas_used;
          base_fee_per_gas = postgres_numeric block.base_fee_per_gas;
          transaction_count = block.transaction_count;
          indexed_at = block.indexed_at;
        },
        ground (arith, fits.number, fits.timestamp, fits.gas_limit, fits.gas_used, counted, few),
        ground (
          arith,
          counted,
          decode_hash-hash_bytes block.hash fits.hash,
          decode_hash-hash_bytes block.parent_hash fits.parent_hash,
          decode_postgres_numeric-postgres_numeric driver is block.base_fee_per_gas
              fits.base_fee_per_gas,
        ),
      )

  -- The same of a transaction, whose row is joined with its block's hash.
  pub decode_transaction-queue_transaction :
      (transaction : Transaction)
      → FitsTransaction transaction
      → (row : TransactionRow) × (queue_transaction transaction ≡ ok row)
        × (decode_transaction (hash_bytes transaction.block_hash) (kept_transaction driver row)
            ≡ ok transaction)
  unfolding queue_transaction decode_transaction postgres_int64 postgres_int32
      decode_postgres_uint64 decode_postgres_uint32 decode_postgres_uint8
  decode_transaction-queue_transaction transaction fits =
      let (wei, valued, small) = fits.value in
      (
        record {
          hash = hash_bytes transaction.hash;
          block_number = pos transaction.block_number;
          index = pos transaction.index;
          type_id = pos transaction.kind;
          nonce = pos transaction.nonce;
          sender = address_bytes transaction.sender;
          recipient = postgres_address transaction.recipient;
          value = postgres_numeric transaction.value;
          gas_limit = pos transaction.gas_limit;
          gas_price = postgres_numeric transaction.gas_price;
          max_fee_per_gas = postgres_numeric transaction.max_fee_per_gas;
          max_priority_fee_per_gas = postgres_numeric transaction.max_priority_fee_per_gas;
          input = transaction.input;
        },
        ground (arith, fits.block_number, fits.index, fits.nonce, fits.gas_limit),
        ground (
          arith,
          fits.kind,
          valued,
          decode_hash-hash_bytes transaction.hash fits.hash,
          decode_hash-hash_bytes transaction.block_hash fits.block_hash,
          decode_address-address_bytes transaction.sender fits.sender,
          decode_optional_address-postgres_address transaction.recipient fits.recipient,
          decode_postgres_numeric_required driver is wei small,
          decode_postgres_numeric-postgres_numeric driver is transaction.gas_price fits.gas_price,
          decode_postgres_numeric-postgres_numeric driver is transaction.max_fee_per_gas
              fits.max_fee_per_gas,
          decode_postgres_numeric-postgres_numeric driver is transaction.max_priority_fee_per_gas
              fits.max_priority_fee_per_gas,
        ),
      )

-- The same of an event.
pub decode_event-queue_event :
    (event : Event)
    → FitsEvent event
    → (row : EventRow) × (queue_event event ≡ ok row)
      × (decode_event (hash_bytes event.block_hash) row ≡ ok event)
unfolding queue_event decode_event postgres_int64 postgres_int32 decode_postgres_uint64
    decode_postgres_uint32
decode_event-queue_event event fits = (
  record {
    block_number = pos event.block_number;
    transaction_hash = hash_bytes event.transaction_hash;
    transaction_index = pos event.transaction_index;
    log_index = pos event.log_index;
    address = address_bytes event.address;
    topics = map hash_bytes event.topics;
    payload = event.payload;
  },
  ground (arith, fits.block_number, fits.transaction_index, fits.log_index),
  ground (
    arith,
    decode_hash-hash_bytes event.block_hash fits.block_hash,
    decode_hash-hash_bytes event.transaction_hash fits.transaction_hash,
    decode_address-address_bytes event.address fits.address,
    decode_topics-hash_bytes event.topics fits.few_topics fits.topics,
  ),
)
