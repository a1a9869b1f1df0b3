-- ===== src/Store/Postgres/Tables.antt =====
-- The tables of migrations/000001_initial.up.sql and the statements that
-- internal/store/postgres_indexer.go sends, each as a function of the tables. A row keeps what a SELECT
-- gives back. A statement that breaks a constraint is an error of the database, told apart by its
-- SQLSTATE. The order of the rows in a table means nothing.
use ethindexer.Common.{
  List, [], ◌∷◌, Option, none, some, Bool, true, false, not, ◌||◌, ◌&&◌, ◌==◌, leb, if◌then◌else◌,
  length, filter_by, ℤ, pos, eqb_ℤ, leb_ℤ, ltb_ℤ, Bytes, same_bytes,
}
use ethindexer.Failure.{Result, ok, ◌>>◌, guard, foreign, Error}
use ethindexer.Domain.{Time}
use ethindexer.Store.Postgres.Rows.{BlockRow, TransactionRow, EventRow}
use ethindexer.Store.Postgres.Driver.{Driver, kept_block, kept_transaction}

pub record SyncRow : Type 0 where
  pub chain_id : ℤ  -- bigint
  pub last_indexed_number : Option ℤ  -- bigint
  pub last_indexed_hash : Option Bytes
  pub last_successful_sync_at : Time

pub record Tables : Type 0 where
  pub blocks : List BlockRow
  pub transactions : List TransactionRow
  pub event_logs : List EventRow
  pub sync_state : List SyncRow

abbrev unique_violation : Error
unique_violation = foreign 23_505

abbrev foreign_key_violation : Error
foreign_key_violation = foreign 23_503

abbrev check_violation : Error
check_violation = foreign 23_514

abbrev pub any_row {ℓ} : {A : Type ℓ} → (A → Bool) → List A → Bool
any_row test [] = false
any_row test (row ∷ rows) = test row || any_row test rows

abbrev pub find_row {ℓ} : {A : Type ℓ} → (A → Bool) → List A → Option A
find_row test [] = none
find_row test (row ∷ rows) = if test row then some row else find_row test rows

-- `WHERE number = $1`
abbrev pub has_number : ℤ → BlockRow → Bool
has_number number row = eqb_ℤ row.number number

abbrev has_hash : Bytes → BlockRow → Bool
has_hash hash row = same_bytes row.hash hash

abbrev pub transaction_has_hash : Bytes → TransactionRow → Bool
transaction_has_hash hash row = same_bytes row.hash hash

abbrev same_place : TransactionRow → TransactionRow → Bool
same_place new row = eqb_ℤ row.block_number new.block_number && eqb_ℤ row.index new.index

abbrev same_log : EventRow → EventRow → Bool
same_log new row = eqb_ℤ row.block_number new.block_number && eqb_ℤ row.log_index new.log_index

abbrev non_negative : ℤ → Bool
non_negative n = leb_ℤ (pos 0) n

abbrev optional_address : Option Bytes → Bool
optional_address none = true
optional_address (some address) = length address == 20

-- The CHECK constraints, but for the sign of the numerics.
unfoldable pub block_checks : BlockRow → Bool
block_checks row =
    ((non_negative row.number && length row.hash == 32)
      && (length row.parent_hash == 32 && non_negative row.timestamp))
    && ((non_negative row.gas_limit && non_negative row.gas_used)
        && non_negative row.transaction_count)

unfoldable pub transaction_checks : TransactionRow → Bool
transaction_checks row =
    ((length row.hash == 32 && non_negative row.index)
      && (non_negative row.type_id && leb_ℤ row.type_id (pos 255)))
    && ((non_negative row.nonce && length row.sender == 20)
        && (optional_address row.recipient && non_negative row.gas_limit))

unfoldable pub event_checks : EventRow → Bool
event_checks row =
    (non_negative row.transaction_index && non_negative row.log_index)
    && (length row.address == 20 && leb (length row.topics) 4)

module _ (driver : Driver) where
  unfoldable pub insert_block : BlockRow → Tables → Result Tables
  insert_block row tables = do
    guard (block_checks row) check_violation
    guard (not (any_row (has_number row.number) tables.blocks)) unique_violation
    guard (not (any_row (has_hash row.hash) tables.blocks)) unique_violation
    ok (record tables { blocks = kept_block driver row ∷ tables.blocks })

  unfoldable pub insert_transaction : TransactionRow → Tables → Result Tables
  insert_transaction row tables = do
    guard (transaction_checks row) check_violation
    guard (not (any_row (transaction_has_hash row.hash) tables.transactions)) unique_violation
    guard (not (any_row (same_place row) tables.transactions)) unique_violation
    guard (any_row (has_number row.block_number) tables.blocks) foreign_key_violation
    ok (record tables { transactions = kept_transaction driver row ∷ tables.transactions })

unfoldable pub insert_event : EventRow → Tables → Result Tables
insert_event row tables = do
  guard (event_checks row) check_violation
  guard (not (any_row (same_log row) tables.event_logs)) unique_violation
  guard (any_row (has_number row.block_number) tables.blocks) foreign_key_violation
  guard (any_row (transaction_has_hash row.transaction_hash) tables.transactions)
      foreign_key_violation
  ok (record tables { event_logs = row ∷ tables.event_logs })

-- `number >= $1 OR number < $2`
abbrev pub in_range : ℤ → ℤ → ℤ → Bool
in_range replace_from retain_from number = leb_ℤ replace_from number || ltb_ℤ number retain_from

-- The events whose transaction is left.
abbrev has_transaction : List TransactionRow → EventRow → Bool
has_transaction transactions row = any_row (transaction_has_hash row.transaction_hash) transactions

abbrev kept_transactions : ℤ → ℤ → Tables → List TransactionRow
kept_transactions replace_from retain_from tables =
    filter_by (λ row. not (in_range replace_from retain_from row.block_number)) tables.transactions

-- `deleteCanonicalRangeQuery`, with the rows that reference a deleted block or transaction.
unfoldable pub delete_canonical_range : ℤ → ℤ → Tables → Tables
delete_canonical_range replace_from retain_from tables = record tables {
  blocks = filter_by (λ row. not (in_range replace_from retain_from row.number)) tables.blocks;
  transactions = kept_transactions replace_from retain_from tables;
  event_logs =
      filter_by
        (λ row.
          not (in_range replace_from retain_from row.block_number)
          && has_transaction (kept_transactions replace_from retain_from tables) row)
        tables.event_logs;
}

-- `SELECT hash FROM blocks WHERE number = $1`
unfoldable pub select_hash : ℤ → Tables → Option Bytes
select_hash number tables = elim (find_row (has_number number) tables.blocks) [
  | none ↦ none
  | some row ↦ some row.hash
]

-- `ORDER BY number DESC LIMIT 1`
unfoldable pub highest_row : Option BlockRow → List BlockRow → Option BlockRow
highest_row highest [] = highest
highest_row none (row ∷ rows) = highest_row (some row) rows
highest_row (some highest) (row ∷ rows) =
    highest_row (some (if ltb_ℤ highest.number row.number then row else highest)) rows

-- `SELECT chain_id FROM sync_state WHERE chain_id <> $1 LIMIT 1`
unfoldable pub select_other_chain : ℤ → Tables → Option SyncRow
select_other_chain chain_id tables =
    find_row (λ row. not (eqb_ℤ row.chain_id chain_id)) tables.sync_state

-- `INSERT … ON CONFLICT (chain_id) DO UPDATE`
unfoldable pub upsert_row : SyncRow → List SyncRow → List SyncRow
upsert_row new [] = new ∷ []
upsert_row new (row ∷ rows) =
    if eqb_ℤ row.chain_id new.chain_id then new ∷ rows else row ∷ upsert_row new rows

abbrev pub upsert_sync_state : SyncRow → Tables → Tables
upsert_sync_state row tables = record tables { sync_state = upsert_row row tables.sync_state }
