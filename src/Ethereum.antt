-- ===== src/Ethereum.antt =====
-- internal/ethereum: the `Reader` that the indexer requires, what its answers hold, and the
-- check of the chain's id.
-- go-ethereum's `types.Header`, `types.Block`, `types.Transaction` and `types.Log` enter as records
-- of what their methods and fields return.
use ethindexer.Common.{ℕ, Bool, false, List, Option, none, some, ℤ, pos, negsuc, ltb, ◌==◌, ◌&&◌}
use ethindexer.Failure.{Result, ◌>>=◌, guard, unexpected_chain_id}
use ethindexer.Domain.{Hash, Address, BigInt, uint64_size}

pub record Header : Type 0 where
  pub number : BigInt
  pub hash : Hash

pub record RawTransaction : Type 0 where
  pub hash : Hash
  pub is_protected : Bool
  pub chain_id : ℤ
  pub kind : ℕ  -- uint8, `Type()`
  pub nonce : ℕ  -- uint64
  pub recipient : Option Address
  pub value : BigInt
  pub gas : ℕ  -- uint64
  pub gas_price : BigInt
  pub gas_fee_cap : BigInt
  pub gas_tip_cap : BigInt
  pub payload : List ℕ  -- `Data()`

pub record RawBlock : Type 0 where
  pub number : BigInt
  pub hash : Hash
  pub parent_hash : Hash
  pub time : ℕ  -- uint64
  pub gas_limit : ℕ  -- uint64
  pub gas_used : ℕ  -- uint64
  pub base_fee : BigInt
  pub transactions : List (Option RawTransaction)

pub record RawLog : Type 0 where
  pub block_number : ℕ  -- uint64
  pub block_hash : Hash
  pub tx_hash : Hash
  pub tx_index : ℕ  -- uint
  pub index : ℕ  -- uint
  pub address : Address
  pub topics : List Hash
  pub payload : List ℕ  -- the field `Data`
  pub removed : Bool

-- One synchronization asks for each number and each hash once, so a function of the request holds
-- every course of answers, of a chain that changes meanwhile too. `none` is a nil answer.
-- The two numbers are constants of go-ethereum's `rpc` package.
pub record Reader : Type 0 where
  pub block_by_number : ℕ → Result (Option RawBlock)
  pub header_by_number : BigInt → Result (Option Header)
  pub logs_by_block_hash : Hash → Result (List RawLog)
  pub safe_block_number : ℤ
  pub finalized_block_number : ℤ

-- `!actual.IsUint64() || actual.Uint64() != expected` of a number that is not nil.
abbrev is_expected : BigInt → ℕ → Bool
is_expected none expected = false
is_expected (some (negsuc n)) expected = false
is_expected (some (pos n)) expected = ltb n uint64_size && n == expected

-- `ValidateChainID` of a client, by what its `ChainID` returns.
unfoldable pub validate_chain_id : Result BigInt → ℕ → Result (Unit {0})
validate_chain_id chain_id expected = do
  actual ← chain_id
  guard (is_expected actual expected) unexpected_chain_id
