-- ===== src/Indexer/Fetcher.antt =====
-- internal/indexer/fetcher.go: one block with its transactions and logs.
pub mod Transactions
pub mod Logs
pub mod Bundle
use ethindexer.Common.{
  ℕ, suc, ◌%◌, List, [], ◌∷◌, ◌++◌, Option, none, some, Bool, true, false, not, ◌&&◌, ◌||◌, ltb,
  leb, ◌==◌, if◌then◌else◌, length, lookup, elem, is_some, sort_by, ℤ, pos, eqb_ℤ,
}
use ethindexer.Failure.{Result, ok, err, ◌>>=◌, ◌>>◌, guard, joined, inconsistent_block_data}
use ethindexer.Domain.{Hash, Address, Time, BigInt, Transaction, Event, BlockBundle, uint32_size}
use ethindexer.Ethereum.{Reader, RawTransaction, RawBlock, RawLog}
use ethindexer.Store.Memory.Queries.{earlier_log}
use ethindexer.Indexer.Syncer.{to_uint64}

-- `signer` is go-ethereum's `types.Sender` with the signer of the chain, and the two numbers are its
-- transaction types. `now` is the reading of the clock when a block is put together.
pub record Fetcher : Type 0 where
  pub chain : Reader
  pub chain_id : ℤ
  pub signer : RawTransaction → Result Address
  pub legacy_tx_type : ℕ
  pub access_list_tx_type : ℕ
  pub now : ℕ → Time

abbrev pub is_requested : Option ℕ → ℕ → Bool
is_requested none requested = false
is_requested (some number) requested = number == requested

unfoldable pub validate_block_number : RawBlock → ℕ → Result (Unit {0})
validate_block_number block requested =
    guard (is_requested (to_uint64 block.number) requested) inconsistent_block_data

-- `%w: …: %w` around the error of the signer
abbrev pub derived : Result Address → Result Address
derived (ok sender) = ok sender
derived (err e) = err (joined inconsistent_block_data e)

module _ (f : Fetcher) (number : ℕ) (hash : Hash) where
  -- The fees that a transaction's type has.
  unfoldable pub map_transaction : ℕ → RawTransaction → Address → Transaction
  map_transaction position transaction sender =
      let is_legacy =
        transaction.kind == f.legacy_tx_type || transaction.kind == f.access_list_tx_type in
      record {
        hash = transaction.hash;
        block_number = number;
        block_hash = hash;
        index = position;
        kind = transaction.kind;
        nonce = transaction.nonce;
        sender = sender;
        recipient = transaction.recipient;
        value = transaction.value;
        gas_limit = transaction.gas;
        gas_price = if is_legacy then transaction.gas_price else none;
        max_fee_per_gas = if is_legacy then none else transaction.gas_fee_cap;
        max_priority_fee_per_gas = if is_legacy then none else transaction.gas_tip_cap;
        input = [] ++ transaction.payload;
      }

  -- The loop of `mapTransactions` from position `index` on.
  unfoldable pub map_from :
      ℕ
      → List (Option RawTransaction)
      → List (Hash × ℕ)
      → Result (List Transaction × List (Hash × ℕ))
  map_from index [] positions = ok ([], positions)
  map_from index (none ∷ rest) positions = err inconsistent_block_data
  map_from index (some transaction ∷ rest) positions = do
    guard (not (transaction.is_protected && not (eqb_ℤ transaction.chain_id f.chain_id)))
        inconsistent_block_data
    sender ← derived (f.signer transaction)
    guard (not (is_some (lookup transaction.hash positions))) inconsistent_block_data
    (mapped, positions') ←
        map_from (suc index) rest ((transaction.hash, index % uint32_size) ∷ positions)
    ok (map_transaction (index % uint32_size) transaction sender ∷ mapped, positions')

  unfoldable pub map_transactions :
      List (Option RawTransaction) → Result (List Transaction × List (Hash × ℕ))
  map_transactions transactions = do
    guard (ltb (length transactions) uint32_size) inconsistent_block_data
    map_from 0 transactions []

-- `transactionPositions[log.TxHash]`
abbrev pub position_or_zero : Option ℕ → ℕ
position_or_zero none = 0
position_or_zero (some position) = position

abbrev pub at_position : Option ℕ → ℕ → Bool
at_position none index = false
at_position (some position) index = index == position

module _ (number : ℕ) (hash : Hash) (positions : List (Hash × ℕ)) where
  abbrev pub map_event : RawLog → Event
  map_event log = record {
    block_number = number;
    block_hash = hash;
    transaction_hash = log.tx_hash;
    transaction_index = position_or_zero (lookup log.tx_hash positions);
    log_index = log.index % uint32_size;
    address = log.address;
    topics = [] ++ log.topics;
    payload = [] ++ log.payload;
  }

  -- The loop of `mapEvents`; `seen` holds the log indexes so far.
  unfoldable pub map_logs : List RawLog → List ℕ → Result (List Event)
  map_logs [] seen = ok []
  map_logs (log ∷ rest) seen = do
    guard (not log.removed) inconsistent_block_data
    guard (log.block_hash == hash && log.block_number == number) inconsistent_block_data
    guard (ltb log.index uint32_size && ltb log.tx_index uint32_size) inconsistent_block_data
    guard (leb (length log.topics) 4) inconsistent_block_data
    guard (at_position (lookup log.tx_hash positions) (log.tx_index % uint32_size))
        inconsistent_block_data
    guard (not (elem (log.index % uint32_size) seen)) inconsistent_block_data
    events ← map_logs rest (log.index % uint32_size ∷ seen)
    ok (map_event log ∷ events)

  unfoldable pub map_events : List RawLog → Result (List Event)
  map_events logs = do events ← map_logs logs []; ok (sort_by earlier_log events)

abbrev pub given : Option RawBlock → Result RawBlock
given none = err inconsistent_block_data
given (some block) = ok block

abbrev pub bundle_of : Fetcher → ℕ → RawBlock → List Transaction → List Event → BlockBundle
bundle_of f number block transactions events = record {
  block = record {
    number = number;
    hash = block.hash;
    parent_hash = block.parent_hash;
    timestamp = block.time;
    gas_limit = block.gas_limit;
    gas_used = block.gas_used;
    base_fee_per_gas = block.base_fee;
    transaction_count = pos (length transactions);
    indexed_at = f.now number;
  };
  transactions = transactions;
  events = events;
}

-- `mapTransactions` reads the number from the block, where the check before has found `number`.
unfoldable pub fetch_block : Fetcher → ℕ → Result BlockBundle
fetch_block f number = do
  answer ← f.chain.block_by_number number
  block ← given answer
  validate_block_number block number
  (transactions, positions) ← map_transactions f number block.hash block.transactions
  logs ← f.chain.logs_by_block_hash block.hash
  events ← map_events number block.hash positions logs
  ok (bundle_of f number block transactions events)
