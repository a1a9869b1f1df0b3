-- ===== src/Examples/Postgres.antt =====
-- A write to the empty tables of the PostgreSQL store.
use ethindexer.Common.{
  ℕ, zero, suc, ◌*◌, ◌/◌, ◌<◌, ◌≡◌, refl, inl, List, [], ◌∷◌, none, some, arith, get_elem?, pos,
  to_be, from_be, same_bytes,
}
use ethindexer.Failure.{ok, foreign}
use ethindexer.Domain.{BlockBundle, CanonicalUpdate, uint256_size}
use ethindexer.Store.Validate.{validate_replacement, validate_canonical_bundles}
use ethindexer.Store.Memory.{new_memory}
use ethindexer.Store.Postgres.Columns.{
  postgres_int64, hash_bytes, address_bytes, postgres_numeric, max_int64,
}
use ethindexer.Store.Postgres.Rows.{
  BlockRow, TransactionRow, EventRow, queue_block, queue_transaction, decode_block,
  decode_transaction,
}
use ethindexer.Store.Postgres.Driver.{Driver, IsDriver, SameNumber}
use ethindexer.Store.Postgres.Tables.{Tables}
use ethindexer.Store.Postgres.Validation.{validate_postgres_update}
use ethindexer.Store.Postgres.Validation.Bounds.{validate_postgres_update_total}
use ethindexer.Store.Postgres.Update.{
  Faults, Statement, block_statement, transaction_statement, event_statement, run,
  insert_canonical_bundles, apply_in_session, apply_canonical_update,
}
use ethindexer.Store.Postgres.Update.Atomic.{IsSettled}
use ethindexer.Store.Postgres.Update.Whole.{IsWritten, apply_in_session-IsWritten}
use ethindexer.Store.Postgres.Update.Batching.{statements}
use ethindexer.Store.Postgres.Update.Refines.{apply_canonical_update-refines}
use ethindexer.Store.Postgres.Reads.{canonical_hash}
use ethindexer.Examples.Data.{bundle_of_chain}
use ethindexer.Examples.Ranges.{busy_bundle}

-- Numerics come back as they are; times lose what is below a microsecond.
abbrev pub plain_driver : Driver
plain_driver = record {
  numeric = λ numeric. numeric;
  timestamp = λ nanoseconds. nanoseconds / 1_000 * 1_000;
}

plain-SameNumber : (n : ℕ) → SameNumber (postgres_numeric (some (pos n))) n
unfolding postgres_numeric
plain-SameNumber n = record {
  valid = refl;
  nan = refl;
  finite = refl;
  magnitude = (n, 0, refl, inl (refl, ground arith, ground arith));
}

pub plain_driver-IsDriver : IsDriver plain_driver
plain_driver-IsDriver = record { null = refl; number = λ n small. plain-SameNumber n }

abbrev no_faults : Faults
no_faults = record {
  at_begin = none;
  at_lock = none;
  at_chain = none;
  at_delete = none;
  at_parent = none;
  at_batch = λ n. none;
  at_tip = none;
  at_sync_state = none;
  at_commit = none;
}

abbrev pub no_tables : Tables
no_tables = record { blocks = []; transactions = []; event_logs = []; sync_state = [] }

abbrev first_update : CanonicalUpdate
first_update = record {
  chain_id = 1;
  replace_from = 5;
  retain_from = 5;
  blocks = busy_bundle ∷ bundle_of_chain 6 ∷ [];
  synced_at = 77;
}

validated : validate_postgres_update first_update ≡ ok tt
unfolding validate_postgres_update validate_replacement validate_canonical_bundles
    ethindexer.Store.Validate.check_replacement ethindexer.Store.Validate.check_contiguous
    ethindexer.Store.Validate.check_bundles ethindexer.Store.Validate.sorted_block_numbers
    ethindexer.Store.Validate.check_bundle ethindexer.Store.Validate.check_transactions
    ethindexer.Store.Validate.check_events ethindexer.Store.Postgres.Validation.bundle_map
    ethindexer.Store.Postgres.Validation.validate_bundles
    ethindexer.Store.Postgres.Validation.validate_postgres_block
    ethindexer.Store.Postgres.Validation.validate_uint256
    ethindexer.Store.Postgres.Validation.validate_transactions
    ethindexer.Store.Postgres.Validation.validate_postgres_transaction
    ethindexer.Store.Postgres.Validation.validate_positions
validated = refl

written : (apply_canonical_update plain_driver no_faults first_update no_tables).1 ≡ none
unfolding apply_canonical_update validate_postgres_update validate_replacement
    validate_canonical_bundles ethindexer.Store.Validate.check_replacement
    ethindexer.Store.Validate.check_contiguous ethindexer.Store.Validate.check_bundles
    ethindexer.Store.Validate.sorted_block_numbers ethindexer.Store.Validate.check_bundle
    ethindexer.Store.Validate.check_transactions ethindexer.Store.Validate.check_events
    ethindexer.Store.Postgres.Validation.bundle_map
    ethindexer.Store.Postgres.Validation.validate_bundles
    ethindexer.Store.Postgres.Validation.validate_postgres_block
    ethindexer.Store.Postgres.Validation.validate_uint256
    ethindexer.Store.Postgres.Validation.validate_transactions
    ethindexer.Store.Postgres.Validation.validate_postgres_transaction
    ethindexer.Store.Postgres.Validation.validate_positions apply_in_session
    ethindexer.Store.Postgres.Update.write_update from_be same_bytes to_be
    ethindexer.Store.Postgres.Columns.decode_hash
    ethindexer.Store.Postgres.Columns.decode_postgres_uint64
    ethindexer.Store.Postgres.Columns.postgres_address
    ethindexer.Store.Postgres.Columns.postgres_count
    ethindexer.Store.Postgres.Columns.postgres_int32 postgres_int64 postgres_numeric queue_block
    ethindexer.Store.Postgres.Rows.queue_event queue_transaction
    ethindexer.Store.Postgres.Tables.block_checks
    ethindexer.Store.Postgres.Tables.delete_canonical_range
    ethindexer.Store.Postgres.Tables.event_checks ethindexer.Store.Postgres.Tables.highest_row
    ethindexer.Store.Postgres.Tables.insert_block ethindexer.Store.Postgres.Tables.insert_event
    ethindexer.Store.Postgres.Tables.insert_transaction ethindexer.Store.Postgres.Tables.select_hash
    ethindexer.Store.Postgres.Tables.select_other_chain
    ethindexer.Store.Postgres.Tables.transaction_checks ethindexer.Store.Postgres.Tables.upsert_row
    ethindexer.Store.Postgres.Update.canonical_tip_in_transaction insert_canonical_bundles
    ethindexer.Store.Postgres.Update.queue ethindexer.Store.Postgres.Update.queue_bundles
    ethindexer.Store.Postgres.Update.queue_events
    ethindexer.Store.Postgres.Update.queue_transactions
    ethindexer.Store.Postgres.Update.reject_different_chain run
    ethindexer.Store.Postgres.Update.send_canonical_batch
    ethindexer.Store.Postgres.Update.validate_retained_parent
    ethindexer.Store.Postgres.Update.write_sync_state
written = refl

kept : (ethindexer.Store.Memory.apply_canonical_update none first_update new_memory).1 ≡ none
unfolding ethindexer.Store.Memory.apply_canonical_update ethindexer.Store.Memory.check_update
    ethindexer.Store.Memory.candidate_of ethindexer.Store.Memory.store_blocks
    ethindexer.Store.Memory.Clone.clone_bundles ethindexer.Store.Memory.Clone.clone_bundle
    ethindexer.Store.Memory.Clone.clone_block ethindexer.Store.Memory.Clone.clone_transaction
    ethindexer.Store.Memory.Clone.clone_event validate_replacement validate_canonical_bundles
    ethindexer.Store.Validate.check_replacement ethindexer.Store.Validate.check_contiguous
    ethindexer.Store.Validate.check_bundles ethindexer.Store.Validate.sorted_block_numbers
    ethindexer.Store.Validate.check_bundle ethindexer.Store.Validate.check_transactions
    ethindexer.Store.Validate.check_events
kept = refl

small_hashes :
    (i : ℕ) (b : BlockBundle)
    → get_elem? first_update.blocks i ≡ some b
    → b.block.hash < uint256_size
small_hashes zero b at = ground (arith, at)
small_hashes (suc zero) b at = ground (arith, at)
small_hashes (suc (suc i)) b at = absurd (ground (arith, at))

both_empty :
    (k : ℕ)
    → canonical_hash none k no_tables ≡ ethindexer.Store.Memory.canonical_hash none k new_memory
unfolding canonical_hash ethindexer.Store.Memory.canonical_hash postgres_int64
    ethindexer.Store.Postgres.Tables.select_hash
both_empty k = ground arith

apply_canonical_update-refines_example :
    canonical_hash none 5 (apply_canonical_update plain_driver no_faults first_update no_tables).0
    ≡ ethindexer.Store.Memory.canonical_hash none 5
        (ethindexer.Store.Memory.apply_canonical_update none first_update new_memory).0
apply_canonical_update-refines_example =
    apply_canonical_update-refines plain_driver no_faults first_update no_tables new_memory written
      kept small_hashes both_empty 5

-- The connection is lost when the batches were sent and the tip is read.
abbrev lost_at_tip : Faults
lost_at_tip = record no_faults { at_tip = some (foreign 1) }

apply_in_session-IsWritten_example :
    IsSettled plain_driver lost_at_tip first_update (IsWritten first_update no_tables) no_tables (
      apply_in_session plain_driver lost_at_tip first_update
        (record { committed = no_tables; working = none }))
apply_in_session-IsWritten_example =
    apply_in_session-IsWritten plain_driver lost_at_tip first_update no_tables small_hashes

validate_postgres_update_total_example :
    ((ss : List Statement) × (statements first_update.blocks ≡ ok ss))
    × (postgres_int64 1 ≡ ok (pos 1))
    × (postgres_int64 5 ≡ ok (pos 5))
    × (postgres_int64 5 ≡ ok (pos 5))
validate_postgres_update_total_example = validate_postgres_update_total first_update validated
