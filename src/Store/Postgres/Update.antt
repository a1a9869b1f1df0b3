-- ===== src/Store/Postgres/Update.antt =====
-- `ApplyCanonicalUpdate` of internal/store/postgres_indexer.go. The statements between `BeginTx` and
-- `Commit` work on a copy of the tables, which a rollback drops. Each call of the database can fail by
-- itself: `Faults` says what it returns. The advisory lock makes a transaction one step.
pub mod Atomic
pub mod Batching
pub mod Faultless
pub mod Contents
pub mod Refines
pub mod Whole
use ethindexer.Common.{
  ℕ, suc, ◌+◌, ◌-◌, List, [], ◌∷◌, ◌++◌, Option, none, some, Bool, true, false, not, ◌||◌, ◌&&◌,
  ◌==◌, leb, if◌then◌else◌, length, ℤ, pos, Bytes,
}
use ethindexer.Failure.{
  Error, Result, ok, err, ◌>>=◌, ◌>>◌, guard, Context, alive, invalid_canonical_update,
}
use ethindexer.Domain.{Hash, Block, Transaction, Event, BlockBundle, CanonicalUpdate, ChainTip}
use ethindexer.Store.Postgres.Columns.{
  postgres_int64, decode_postgres_uint64, decode_hash, hash_bytes,
}
use ethindexer.Store.Postgres.Rows.{
  BlockRow, TransactionRow, EventRow, queue_block, queue_transaction, queue_event,
}
use ethindexer.Store.Postgres.Validation.{validate_postgres_update}
use ethindexer.Store.Postgres.Driver.{Driver}
use ethindexer.Store.Postgres.Session.{
  Session, Outcome, exec, and_then, begin_tx, commit, deferred_rollback,
}
use ethindexer.Store.Postgres.Tables.{
  Tables, SyncRow, insert_block, insert_transaction, insert_event, delete_canonical_range,
  select_hash, select_other_chain, highest_row, upsert_sync_state,
}

-- What the calls return by themselves, in a transaction; none is no fault. A commit that reports an
-- error may have taken effect, which the flag says.
pub record Faults : Type 0 where
  pub at_begin : Context
  pub at_lock : Context
  pub at_chain : Context
  pub at_delete : Context
  pub at_parent : Context
  pub at_batch : ℕ → Context
  pub at_tip : Context
  pub at_sync_state : Context
  pub at_commit : Option (Error × Bool)

pub data Statement : Type 0 where
  block_statement : BlockRow → Statement
  transaction_statement : TransactionRow → Statement
  event_statement : EventRow → Statement

abbrev pub canonical_batch_query_limit : ℕ
canonical_batch_query_limit = 1_000

-- The statements of a batch that are not sent yet, how many batches were sent, and the tables.
pub record Pending : Type 0 where
  pub batch : List Statement
  pub sent : ℕ
  pub tables : Tables

module _ (driver : Driver) where
  abbrev pub execute : Statement → Tables → Result Tables
  execute (block_statement row) tables = insert_block driver row tables
  execute (transaction_statement row) tables = insert_transaction driver row tables
  execute (event_statement row) tables = insert_event row tables

  -- The statements in order, up to the first that fails.
  unfoldable pub run : List Statement → Tables → Result Tables
  run [] tables = ok tables
  run (statement ∷ statements) tables = do
    tables' ← execute statement tables
    run statements tables'

module _ (driver : Driver) (at_batch : ℕ → Context) where
  unfoldable pub send_canonical_batch : Pending → Result Pending
  send_canonical_batch p = if length p.batch == 0 then ok p else (do
    alive (at_batch p.sent)
    tables ← run driver p.batch p.tables
    ok (record { batch = []; sent = p.sent + 1; tables = tables }))

  -- A statement is queued, and the batch is sent once it is full.
  unfoldable pub queue : Statement → Pending → Result Pending
  queue statement p =
      let longer = record p { batch = p.batch ++ (statement ∷ []) } in
      if leb canonical_batch_query_limit (length longer.batch)
      then send_canonical_batch longer
      else ok longer

  unfoldable pub queue_transactions : List Transaction → Pending → Result Pending
  queue_transactions [] p = ok p
  queue_transactions (transaction ∷ transactions) p = do
    row ← queue_transaction transaction
    p' ← queue (transaction_statement row) p
    queue_transactions transactions p'

  unfoldable pub queue_events : List Event → Pending → Result Pending
  queue_events [] p = ok p
  queue_events (event ∷ events) p = do
    row ← queue_event event
    p' ← queue (event_statement row) p
    queue_events events p'

  unfoldable pub queue_bundles : List BlockBundle → Pending → Result Pending
  queue_bundles [] p = ok p
  queue_bundles (bundle ∷ bundles) p = do
    row ← queue_block bundle.block
    p₁ ← queue (block_statement row) p
    p₂ ← queue_transactions bundle.transactions p₁
    p₃ ← queue_events bundle.events p₂
    queue_bundles bundles p₃

  unfoldable pub insert_canonical_bundles : List BlockBundle → Tables → Result Tables
  insert_canonical_bundles bundles tables = do
    p ← queue_bundles bundles (record { batch = []; sent = 0; tables = tables })
    last ← send_canonical_batch p
    ok last.tables

unfoldable pub reject_different_chain : Context → ℕ → Tables → Result (Unit {0})
reject_different_chain fault chain_id tables = do
  wanted ← postgres_int64 chain_id
  alive fault
  elim (select_other_chain wanted tables) [ none ↦ ok tt | some row ↦ err invalid_canonical_update ]

abbrev extends : Option Bytes → Block → Result (Unit {0})
extends none block = err invalid_canonical_update
extends (some previous) block = do
  hash ← decode_hash previous
  guard (block.parent_hash == hash) invalid_canonical_update

abbrev check_parent : Context → CanonicalUpdate → List BlockBundle → Tables → Result (Unit {0})
check_parent fault update [] tables = ok tt
check_parent fault update (first ∷ rest) tables =
    if update.replace_from == update.retain_from then ok tt else (do
      previous ← postgres_int64 (update.replace_from - 1)
      alive fault
      extends (select_hash previous tables) first.block)

unfoldable pub validate_retained_parent : Context → CanonicalUpdate → Tables → Result (Unit {0})
validate_retained_parent fault update tables = check_parent fault update update.blocks tables

abbrev decoded_tip : Option BlockRow → Result (Option ChainTip)
decoded_tip none = ok none
decoded_tip (some row) = do
  hash ← decode_hash row.hash
  number ← decode_postgres_uint64 row.number
  ok (some (record { number = number; hash = hash }))

unfoldable pub canonical_tip_in_transaction : Context → Tables → Result (Option ChainTip)
canonical_tip_in_transaction fault tables = do
  alive fault
  decoded_tip (highest_row none tables.blocks)

abbrev sync_number : Option ChainTip → Result (Option ℤ)
sync_number none = ok none
sync_number (some tip) = do number ← postgres_int64 tip.number; ok (some number)

abbrev sync_hash : Option ChainTip → Option Bytes
sync_hash none = none
sync_hash (some tip) = some (hash_bytes tip.hash)

unfoldable pub write_sync_state :
    Context → CanonicalUpdate → Option ChainTip → Tables → Result Tables
write_sync_state fault update tip tables = do
  number ← sync_number tip
  chain_id ← postgres_int64 update.chain_id
  alive fault
  ok (
      upsert_sync_state
        (record {
          chain_id = chain_id;
          last_indexed_number = number;
          last_indexed_hash = sync_hash tip;
          last_successful_sync_at = update.synced_at;
        })
        tables)

module _ (driver : Driver) (faults : Faults) where
  abbrev pub lock_writer : Tables → Result Tables
  lock_writer tables = do alive faults.at_lock; ok tables

  abbrev pub check_chain : CanonicalUpdate → Tables → Result Tables
  check_chain update tables = do
    reject_different_chain faults.at_chain update.chain_id tables
    ok tables

  abbrev pub delete_replaced : CanonicalUpdate → Tables → Result Tables
  delete_replaced update tables = do
    replace_from ← postgres_int64 update.replace_from
    retain_from ← postgres_int64 update.retain_from
    alive faults.at_delete
    ok (delete_canonical_range replace_from retain_from tables)

  abbrev pub check_retained_parent : CanonicalUpdate → Tables → Result Tables
  check_retained_parent update tables = do
    validate_retained_parent faults.at_parent update tables
    ok tables

  abbrev pub insert_blocks : CanonicalUpdate → Tables → Result Tables
  insert_blocks update tables = insert_canonical_bundles driver faults.at_batch update.blocks tables

  abbrev pub record_sync : CanonicalUpdate → Tables → Result Tables
  record_sync update tables = do
    tip ← canonical_tip_in_transaction faults.at_tip tables
    write_sync_state faults.at_sync_state update tip tables

  -- What the statements of the transaction make of one copy of the tables.
  unfoldable pub in_transaction : CanonicalUpdate → Tables → Result Tables
  in_transaction update tables = do
    locked ← lock_writer tables
    checked ← check_chain update locked
    deleted ← delete_replaced update checked
    linked ← check_retained_parent update deleted
    inserted ← insert_blocks update linked
    record_sync update inserted

  -- The body of `ApplyCanonicalUpdate` behind the deferred rollback.
  unfoldable pub write_update : CanonicalUpdate → Session → Outcome
  write_update update begun = and_then (exec lock_writer begun) λ locked.
      and_then (exec (check_chain update) locked) λ checked.
        and_then (exec (delete_replaced update) checked) λ deleted.
          and_then (exec (check_retained_parent update) deleted) λ linked.
            and_then (exec (insert_blocks update) linked) λ inserted.
              and_then (exec (record_sync update) inserted) λ synced. commit faults.at_commit synced

  unfoldable pub apply_in_session : CanonicalUpdate → Session → Outcome
  apply_in_session update session = elim (validate_postgres_update update) [
    | err e ↦ (session, some e)
    | ok done ↦
        and_then (begin_tx faults.at_begin session)
          λ begun. deferred_rollback (write_update update begun)
  ]

  -- `ApplyCanonicalUpdate` on the committed tables.
  unfoldable pub apply_canonical_update : CanonicalUpdate → Tables → Tables × Option Error
  apply_canonical_update update tables =
      let written = apply_in_session update (record { committed = tables; working = none }) in
      (written.0.committed, written.1)
