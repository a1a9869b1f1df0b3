-- ===== src/Domain.antt =====
-- internal/domain: the records that the fetcher, the syncer, the stores and the server share.
-- A `common.Hash` and a `common.Address` are the numbers that their 32 and 20 bytes spell, first
-- byte highest; a byte slice is a list of numbers; a `*big.Int` is an optional integer; a
-- `time.Time` is a count of nanoseconds, which `UTC` leaves alone. Go's `nil` and empty slices are
-- one list.
use ethindexer.Common.{ℕ, List, Option, ℤ}

abbrev pub Hash : Type 0
Hash = ℕ

abbrev pub Address : Type 0
Address = ℕ

abbrev pub Time : Type 0
Time = ℕ

abbrev pub BigInt : Type 0
BigInt = Option ℤ

pub record Block : Type 0 where
  pub number : ℕ  -- uint64
  pub hash : Hash
  pub parent_hash : Hash
  pub timestamp : ℕ  -- uint64
  pub gas_limit : ℕ  -- uint64
  pub gas_used : ℕ  -- uint64
  pub base_fee_per_gas : BigInt
  pub transaction_count : ℤ  -- int
  pub indexed_at : Time

pub record Transaction : Type 0 where
  pub hash : Hash
  pub block_number : ℕ  -- uint64
  pub block_hash : Hash
  pub index : ℕ  -- uint32
  pub kind : ℕ  -- uint8, the field `Type`
  pub nonce : ℕ  -- uint64
  pub sender : Address
  pub recipient : Option Address
  pub value : BigInt
  pub gas_limit : ℕ  -- uint64
  pub gas_price : BigInt
  pub max_fee_per_gas : BigInt
  pub max_priority_fee_per_gas : BigInt
  pub input : List ℕ

pub record Event : Type 0 where
  pub block_number : ℕ  -- uint64
  pub block_hash : Hash
  pub transaction_hash : Hash
  pub transaction_index : ℕ  -- uint32
  pub log_index : ℕ  -- uint32
  pub address : Address
  pub topics : List Hash
  pub payload : List ℕ  -- the field `Data`

pub record BlockBundle : Type 0 where
  pub block : Block
  pub transactions : List Transaction
  pub events : List Event

pub record BlockResult : Type 0 where
  pub block : Block
  pub transaction_hashes : List Hash

pub record TransactionResult : Type 0 where
  pub transaction : Transaction
  pub events : List Event

pub record EventCursor : Type 0 where
  pub block_number : ℕ  -- uint64
  pub block_hash : Hash
  pub log_index : ℕ  -- uint32

pub record EventQuery : Type 0 where
  pub address : Address
  pub limit : ℕ  -- uint32
  pub before : Option EventCursor

pub record EventPage : Type 0 where
  pub events : List Event
  pub next_cursor : Option EventCursor

pub record ChainTip : Type 0 where
  pub number : ℕ  -- uint64
  pub hash : Hash

pub record CanonicalUpdate : Type 0 where
  pub chain_id : ℕ  -- uint64
  pub replace_from : ℕ  -- uint64
  pub retain_from : ℕ  -- uint64
  pub blocks : List BlockBundle
  pub synced_at : Time

-- A `HeadMode` is a string in the source; `other` stands for every string but the three.
pub data HeadMode : Type 0 where
  latest safe finalized other : HeadMode

abbrev pub max_block_window : ℕ
max_block_window = 50

abbrev pub max_event_page_size : ℕ
max_event_page_size = 1_000

abbrev pub uint32_size : ℕ
uint32_size = 4_294_967_296

abbrev pub uint64_size : ℕ
uint64_size = 18_446_744_073_709_551_616

-- The number of values of 256 bits, and of 160.
abbrev pub uint256_size : ℕ
uint256_size =
    115_792_089_237_316_195_423_570_985_008_687_907_853_269_984_665_640_564_039_457_584_007_913_129_639_936

abbrev pub uint160_size : ℕ
uint160_size = 1_461_501_637_330_902_918_203_684_832_716_283_019_655_932_542_976

abbrev pub hash_length : ℕ
hash_length = 32

abbrev pub address_length : ℕ
address_length = 20
