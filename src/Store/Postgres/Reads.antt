-- ===== src/Store/Postgres/Reads.antt =====
-- The reads of the PostgreSQL store: `CanonicalTip` and `CanonicalHash` of
-- internal/store/postgres_indexer.go, `BlockByNumber`, `TransactionByHash` and, in `Events`, the
-- events of a transaction or an address. Each statement can fail by itself, with what a `Context` says.
use ethindexer.Common.{
  ℕ, List, [], ◌∷◌, Option, none, some, Bool, leb, length, map, filter_by, sort_by, ℤ, pos, eqb_ℤ,
  ltb_ℤ, Bytes, same_bytes,
}
use ethindexer.Failure.{
  Result, ok, err, ◌>>=◌, ◌>>◌, guard, Context, alive, not_found, inconsistent_data,
}
use ethindexer.Domain.{Hash, Transaction, Event, BlockResult, TransactionResult, ChainTip}
use ethindexer.Store.Postgres.Columns.{
  max_int64, postgres_int64, decode_hash, decode_hashes, hash_bytes,
}
use ethindexer.Store.Postgres.Rows.{
  BlockRow, TransactionRow, EventRow, decode_block, decode_transaction, decode_event,
}
use ethindexer.Store.Postgres.Tables.{
  Tables, find_row, has_number, transaction_has_hash, select_hash,
}
use ethindexer.Store.Postgres.Update.{canonical_tip_in_transaction}

unfoldable pub canonical_tip : Context → Tables → Result (Option ChainTip)
canonical_tip fault tables = canonical_tip_in_transaction fault tables

abbrev decoded_hash : Option Bytes → Result Hash
decoded_hash none = err not_found
decoded_hash (some hash) = decode_hash hash

unfoldable pub canonical_hash : Context → ℕ → Tables → Result Hash
canonical_hash fault number tables = do
  guard (leb number max_int64) not_found
  key ← postgres_int64 number
  alive fault
  decoded_hash (select_hash key tables)

abbrev by_index : TransactionRow → TransactionRow → Bool
by_index left right = ltb_ℤ left.index right.index

-- The subquery of `blockByNumberQuery`: the hashes of the block's transactions, by their index.
unfoldable pub select_transaction_hashes : ℤ → Tables → List Bytes
select_transaction_hashes number tables =
    map (λ row. row.hash)
      (sort_by by_index (filter_by (λ row. eqb_ℤ row.block_number number) tables.transactions))

abbrev block_result : Option BlockRow → List Bytes → Result BlockResult
block_result none transaction_hashes = err not_found
block_result (some row) transaction_hashes = do
  block ← decode_block row
  hashes ← decode_hashes transaction_hashes
  guard (eqb_ℤ (pos (length hashes)) block.transaction_count) inconsistent_data
  ok (record { block = block; transaction_hashes = hashes })

unfoldable pub block_by_number : Context → ℕ → Tables → Result BlockResult
block_by_number fault number tables = do
  guard (leb number max_int64) not_found
  key ← postgres_int64 number
  alive fault
  block_result (find_row (has_number key) tables.blocks) (select_transaction_hashes key tables)

-- The rows of a query that joins `event_logs` with `blocks`.
abbrev with_block : Tables → EventRow → List (Bytes × EventRow) → List (Bytes × EventRow)
with_block tables row rows = elim (find_row (has_number row.block_number) tables.blocks) [
  | none ↦ rows
  | some block ↦ (block.hash, row) ∷ rows
]

unfoldable pub join_events : Tables → List EventRow → List (Bytes × EventRow)
join_events tables [] = []
join_events tables (row ∷ rows) = with_block tables row (join_events tables rows)

-- The loop of `scanPostgresEvents`.
unfoldable pub scan_postgres_events : List (Bytes × EventRow) → Result (List Event)
scan_postgres_events [] = ok []
scan_postgres_events ((hash, row) ∷ rows) = do
  event ← decode_event hash row
  events ← scan_postgres_events rows
  ok (event ∷ events)

abbrev by_log : EventRow → EventRow → Bool
by_log left right = ltb_ℤ left.log_index right.log_index

unfoldable pub query_events_for_transaction : Context → Hash → Tables → Result (List Event)
query_events_for_transaction fault hash tables = do
  alive fault
  scan_postgres_events (
      join_events tables (
        sort_by by_log
          (filter_by (λ row. same_bytes row.transaction_hash (hash_bytes hash)) tables.event_logs)))

abbrev joined_block : Option TransactionRow → Tables → Option (Bytes × TransactionRow)
joined_block none tables = none
joined_block (some row) tables = elim (find_row (has_number row.block_number) tables.blocks) [
  | none ↦ none
  | some block ↦ some (block.hash, row)
]

abbrev decoded_transaction : Option (Bytes × TransactionRow) → Result Transaction
decoded_transaction none = err not_found
decoded_transaction (some (hash, row)) = decode_transaction hash row

-- What the calls of a read-only transaction return by themselves.
pub record ReadFaults : Type 0 where
  pub at_begin : Context
  pub at_row : Context
  pub at_events : Context
  pub at_commit : Context

unfoldable pub transaction_by_hash : ReadFaults → Hash → Tables → Result TransactionResult
transaction_by_hash faults hash tables = do
  alive faults.at_begin
  alive faults.at_row
  transaction ←
      decoded_transaction (
        joined_block (find_row (transaction_has_hash (hash_bytes hash)) tables.transactions) tables)
  events ← query_events_for_transaction faults.at_events hash tables
  alive faults.at_commit
  ok (record { transaction = transaction; events = events })
