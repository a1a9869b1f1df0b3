-- ===== src/Examples/Rows.antt =====
-- Rows of the PostgreSQL store, and a page read from them.
use ethindexer.Common.{◌≡◌, refl, [], ◌∷◌, none, arith, pos, to_be, from_be, same_bytes, map}
use ethindexer.Failure.{ok}
use ethindexer.Domain.{EventQuery}
use ethindexer.Store.Memory.Queries.{cut_page}
use ethindexer.Store.Postgres.Columns.{
  postgres_int64, hash_bytes, address_bytes, postgres_numeric, max_int64,
}
use ethindexer.Store.Postgres.Rows.{
  BlockRow, TransactionRow, EventRow, queue_block, queue_transaction, decode_block,
  decode_transaction,
}
use ethindexer.Store.Postgres.Driver.{kept_block, kept_transaction}
use ethindexer.Store.Postgres.Codec.RoundTrip.{
  FitsBlock, FitsTransaction, decode_block-queue_block, decode_transaction-queue_transaction,
}
use ethindexer.Store.Postgres.Tables.{Tables}
use ethindexer.Store.Postgres.Reads.{canonical_hash, scan_postgres_events}
use ethindexer.Store.Postgres.Events.{query_address_event_page}
use ethindexer.Store.Postgres.Events.Paging.{selected_rows, query_address_event_page-cut_page}
use ethindexer.Examples.Postgres.{plain_driver, plain_driver-IsDriver, no_tables}
use ethindexer.Store.Postgres.Update.{block_statement, run, insert_canonical_bundles}
use ethindexer.Store.Postgres.Update.Batching.{statements, insert_canonical_bundles-run}
use ethindexer.Store.Postgres.Columns.{postgres_int64}
use ethindexer.Examples.Data.{bundle_of_chain}
use ethindexer.Examples.Ranges.{busy_bundle, mapped_transfer, mapped_log}

abbrev quiet_row : BlockRow
quiet_row = record {
  number = pos 6;
  hash = hash_bytes 106;
  parent_hash = hash_bytes 105;
  timestamp = pos 0;
  gas_limit = pos 0;
  gas_used = pos 0;
  base_fee_per_gas = postgres_numeric none;
  transaction_count = pos 0;
  indexed_at = 0;
}

quiet_statements : statements (bundle_of_chain 6 ∷ []) ≡ ok (block_statement quiet_row ∷ [])
unfolding statements queue_block postgres_int64 ethindexer.Store.Postgres.Columns.postgres_count
    ethindexer.Store.Postgres.Update.Batching.transaction_statements
    ethindexer.Store.Postgres.Update.Batching.event_statements
quiet_statements = refl

insert_canonical_bundles-run_example :
    insert_canonical_bundles plain_driver (λ n. none) (bundle_of_chain 6 ∷ []) no_tables
    ≡ run plain_driver (block_statement quiet_row ∷ []) no_tables
insert_canonical_bundles-run_example =
    insert_canonical_bundles-run plain_driver (bundle_of_chain 6 ∷ [])
      (block_statement quiet_row ∷ []) no_tables quiet_statements

busy_block-FitsBlock : FitsBlock busy_bundle.block
busy_block-FitsBlock = record {
  number = ground arith;
  hash = ground arith;
  parent_hash = ground arith;
  timestamp = ground arith;
  gas_limit = ground arith;
  gas_used = ground arith;
  base_fee_per_gas = tt;
  transaction_count = (1, refl, ground arith);
}

decode_block-queue_block_example :
    (row : BlockRow) × (queue_block busy_bundle.block ≡ ok row)
    × (decode_block (kept_block plain_driver row)
        ≡ ok (record busy_bundle.block {
          indexed_at = plain_driver.timestamp busy_bundle.block.indexed_at;
        }))
decode_block-queue_block_example =
    decode_block-queue_block plain_driver plain_driver-IsDriver busy_bundle.block
      busy_block-FitsBlock

mapped_transfer-FitsTransaction : FitsTransaction mapped_transfer
mapped_transfer-FitsTransaction = record {
  hash = ground arith;
  block_number = ground arith;
  block_hash = ground arith;
  index = ground arith;
  kind = ground arith;
  nonce = ground arith;
  sender = ground arith;
  recipient = ground arith;
  value = (5, refl, ground arith);
  gas_limit = ground arith;
  gas_price = tt;
  max_fee_per_gas = ground arith;
  max_priority_fee_per_gas = ground arith;
}

decode_transaction-queue_transaction_example :
    (row : TransactionRow) × (queue_transaction mapped_transfer ≡ ok row)
    × (decode_transaction (hash_bytes 105) (kept_transaction plain_driver row) ≡ ok mapped_transfer)
decode_transaction-queue_transaction_example =
    decode_transaction-queue_transaction plain_driver plain_driver-IsDriver mapped_transfer
      mapped_transfer-FitsTransaction

-- The tables with the event of block 5.
abbrev event_row : EventRow
event_row = record {
  block_number = pos 5;
  transaction_hash = hash_bytes 900;
  transaction_index = pos 0;
  log_index = pos 3;
  address = address_bytes 8;
  topics = map hash_bytes (1 ∷ 2 ∷ []);
  payload = [];
}

abbrev one_event : Tables
one_event = record {
  blocks = record quiet_row { number = pos 5; hash = hash_bytes 105 } ∷ [];
  transactions = [];
  event_logs = event_row ∷ [];
  sync_state = [];
}

abbrev first_query : EventQuery
first_query = record { address = 8; limit = 1; before = none }

scanned :
    scan_postgres_events (selected_rows one_event first_query [] first_query.before)
    ≡ ok (mapped_log ∷ [])
unfolding scan_postgres_events ethindexer.Store.Postgres.Events.select_events from_be same_bytes
    to_be ethindexer.Store.Postgres.Reads.join_events ethindexer.Store.Postgres.Rows.decode_event
    ethindexer.Store.Postgres.Columns.decode_hash ethindexer.Store.Postgres.Columns.decode_address
    ethindexer.Store.Postgres.Columns.decode_hashes ethindexer.Store.Postgres.Columns.decode_topics
    ethindexer.Store.Postgres.Columns.decode_postgres_uint64
    ethindexer.Store.Postgres.Columns.decode_postgres_uint32
scanned = refl

query_address_event_page-cut_page_example :
    query_address_event_page none first_query one_event ≡ ok (cut_page 1 (mapped_log ∷ []))
query_address_event_page-cut_page_example =
    query_address_event_page-cut_page one_event first_query (mapped_log ∷ []) (ground arith) scanned
      (λ cursor is. absurd (ground (arith, is)))
