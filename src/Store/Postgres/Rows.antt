-- ===== src/Store/Postgres/Rows.antt =====
-- The rows that internal/store/postgres_indexer.go sends and internal/store/postgres_scan.go decodes.
use ethindexer.Common.{List, Option, true, false, map, ℤ, pos, leb_ℤ, Bytes}
use ethindexer.Failure.{Result, ok, ◌>>=◌, ◌>>◌, guard, inconsistent_data}
use ethindexer.Domain.{Time, Block, Transaction, Event}
use ethindexer.Store.Postgres.Columns.{
  Numeric, postgres_int64, postgres_int32, postgres_count, postgres_numeric, postgres_address,
  decode_postgres_uint64, decode_postgres_uint32, decode_postgres_uint8, decode_postgres_numeric,
  decode_hash, decode_address, decode_optional_address, decode_topics, hash_bytes, address_bytes,
}

-- `postgresBlockRow`, the columns of the table `blocks`.
pub record BlockRow : Type 0 where
  pub number : ℤ  -- int64
  pub hash : Bytes
  pub parent_hash : Bytes
  pub timestamp : ℤ  -- int64
  pub gas_limit : ℤ  -- int64
  pub gas_used : ℤ  -- int64
  pub base_fee_per_gas : Numeric
  pub transaction_count : ℤ  -- int32
  pub indexed_at : Time

-- `postgresTransactionRow` without the block's hash, which is joined: the columns of the table
-- `transactions`.
pub record TransactionRow : Type 0 where
  pub hash : Bytes
  pub block_number : ℤ  -- int64
  pub index : ℤ  -- int32
  pub type_id : ℤ  -- int16
  pub nonce : ℤ  -- int64
  pub sender : Bytes
  pub recipient : Option Bytes
  pub value : Numeric
  pub gas_limit : ℤ  -- int64
  pub gas_price : Numeric
  pub max_fee_per_gas : Numeric
  pub max_priority_fee_per_gas : Numeric
  pub input : Bytes

-- `postgresEventRow` without the block's hash: the columns of the table `event_logs`.
pub record EventRow : Type 0 where
  pub block_number : ℤ  -- int64
  pub transaction_hash : Bytes
  pub transaction_index : ℤ  -- int32
  pub log_index : ℤ  -- int32
  pub address : Bytes
  pub topics : List Bytes
  pub payload : Bytes  -- the column `data`

-- The arguments of the INSERT that `queueBlock` queues.
unfoldable pub queue_block : Block → Result BlockRow
queue_block block = do
  number ← postgres_int64 block.number
  timestamp ← postgres_int64 block.timestamp
  gas_limit ← postgres_int64 block.gas_limit
  gas_used ← postgres_int64 block.gas_used
  transaction_count ← postgres_count block.transaction_count
  ok (record {
    number = number;
    hash = hash_bytes block.hash;
    parent_hash = hash_bytes block.parent_hash;
    timestamp = timestamp;
    gas_limit = gas_limit;
    gas_used = gas_used;
    base_fee_per_gas = postgres_numeric block.base_fee_per_gas;
    transaction_count = transaction_count;
    indexed_at = block.indexed_at;
  })

unfoldable pub queue_transaction : Transaction → Result TransactionRow
queue_transaction transaction = do
  block_number ← postgres_int64 transaction.block_number
  index ← postgres_int32 transaction.index
  nonce ← postgres_int64 transaction.nonce
  gas_limit ← postgres_int64 transaction.gas_limit
  ok (record {
    hash = hash_bytes transaction.hash;
    block_number = block_number;
    index = index;
    type_id = pos transaction.kind;
    nonce = nonce;
    sender = address_bytes transaction.sender;
    recipient = postgres_address transaction.recipient;
    value = postgres_numeric transaction.value;
    gas_limit = gas_limit;
    gas_price = postgres_numeric transaction.gas_price;
    max_fee_per_gas = postgres_numeric transaction.max_fee_per_gas;
    max_priority_fee_per_gas = postgres_numeric transaction.max_priority_fee_per_gas;
    input = transaction.input;
  })

unfoldable pub queue_event : Event → Result EventRow
queue_event event = do
  block_number ← postgres_int64 event.block_number
  transaction_index ← postgres_int32 event.transaction_index
  log_index ← postgres_int32 event.log_index
  ok (record {
    block_number = block_number;
    transaction_hash = hash_bytes event.transaction_hash;
    transaction_index = transaction_index;
    log_index = log_index;
    address = address_bytes event.address;
    topics = map hash_bytes event.topics;
    payload = event.payload;
  })

unfoldable pub decode_block : BlockRow → Result Block
decode_block row = do
  number ← decode_postgres_uint64 row.number
  hash ← decode_hash row.hash
  parent_hash ← decode_hash row.parent_hash
  timestamp ← decode_postgres_uint64 row.timestamp
  gas_limit ← decode_postgres_uint64 row.gas_limit
  gas_used ← decode_postgres_uint64 row.gas_used
  base_fee ← decode_postgres_numeric false row.base_fee_per_gas
  guard (leb_ℤ (pos 0) row.transaction_count) inconsistent_data
  ok (record {
    number = number;
    hash = hash;
    parent_hash = parent_hash;
    timestamp = timestamp;
    gas_limit = gas_limit;
    gas_used = gas_used;
    base_fee_per_gas = base_fee;
    transaction_count = row.transaction_count;
    indexed_at = row.indexed_at;
  })

-- The row of a transaction and the hash of the block that it is joined with.
unfoldable pub decode_transaction : Bytes → TransactionRow → Result Transaction
decode_transaction joined_hash row = do
  hash ← decode_hash row.hash
  block_number ← decode_postgres_uint64 row.block_number
  block_hash ← decode_hash joined_hash
  index ← decode_postgres_uint32 row.index
  type_id ← decode_postgres_uint8 row.type_id
  nonce ← decode_postgres_uint64 row.nonce
  sender ← decode_address row.sender
  recipient ← decode_optional_address row.recipient
  value ← decode_postgres_numeric true row.value
  gas_limit ← decode_postgres_uint64 row.gas_limit
  gas_price ← decode_postgres_numeric false row.gas_price
  max_fee ← decode_postgres_numeric false row.max_fee_per_gas
  max_priority_fee ← decode_postgres_numeric false row.max_priority_fee_per_gas
  ok (record {
    hash = hash;
    block_number = block_number;
    block_hash = block_hash;
    index = index;
    kind = type_id;
    nonce = nonce;
    sender = sender;
    recipient = recipient;
    value = value;
    gas_limit = gas_limit;
    gas_price = gas_price;
    max_fee_per_gas = max_fee;
    max_priority_fee_per_gas = max_priority_fee;
    input = row.input;
  })

unfoldable pub decode_event : Bytes → EventRow → Result Event
decode_event joined_hash row = do
  block_number ← decode_postgres_uint64 row.block_number
  block_hash ← decode_hash joined_hash
  transaction_hash ← decode_hash row.transaction_hash
  transaction_index ← decode_postgres_uint32 row.transaction_index
  log_index ← decode_postgres_uint32 row.log_index
  address ← decode_address row.address
  topics ← decode_topics row.topics
  ok (record {
    block_number = block_number;
    block_hash = block_hash;
    transaction_hash = transaction_hash;
    transaction_index = transaction_index;
    log_index = log_index;
    address = address;
    topics = topics;
    payload = row.payload;
  })
