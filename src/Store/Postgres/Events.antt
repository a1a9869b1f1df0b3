-- ===== src/Store/Postgres/Events.antt =====
-- `EventsByAddress` of internal/store/postgres_events.go.
pub mod Paging
use ethindexer.Common.{
  ℕ, ◌+◌, ◌-◌, List, [], ◌∷◌, Option, none, some, Bool, true, false, not, ◌||◌, ◌&&◌, ◌==◌, leb,
  ltb, if◌then◌else◌, length, take, filter_by, sort_by, last_or, ℤ, pos, eqb_ℤ, ltb_ℤ, leb_ℤ, Bytes,
  same_bytes, is_some,
}
use ethindexer.Failure.{
  Result, ok, err, ◌>>=◌, ◌>>◌, guard, Context, alive, invalid_query, stale_cursor,
}
use ethindexer.Domain.{Address, Event, EventCursor, EventQuery, EventPage, max_event_page_size}
use ethindexer.Store.Memory.Queries.{zero_event, cursor_at}
use ethindexer.Store.Postgres.Columns.{max_int64, postgres_int64, hash_bytes, address_bytes}
use ethindexer.Store.Postgres.Rows.{EventRow}
use ethindexer.Store.Postgres.Tables.{Tables, has_number, any_row}
use ethindexer.Store.Postgres.Reads.{ReadFaults, join_events, scan_postgres_events}

-- `ORDER BY block_number DESC, log_index DESC`
abbrev row_newer : EventRow → EventRow → Bool
row_newer left right =
    if eqb_ℤ left.block_number right.block_number
    then ltb_ℤ right.log_index left.log_index
    else ltb_ℤ right.block_number left.block_number

abbrev row_before : ℤ → ℤ → EventRow → Bool
row_before block_number log_index row =
    ltb_ℤ row.block_number block_number
    || (eqb_ℤ row.block_number block_number && ltb_ℤ row.log_index log_index)

-- The rows of both queries without their LIMIT, by the condition of the cursor.
unfoldable pub select_events : Address → (EventRow → Bool) → Tables → List (Bytes × EventRow)
select_events address before tables = join_events tables (
    sort_by row_newer (
      filter_by (λ row. same_bytes row.address (address_bytes address) && before row)
        tables.event_logs))

unfoldable pub query_rows : EventQuery → ℕ → Tables → Result (List (Bytes × EventRow))
query_rows query limit tables = elim query.before [
  | none ↦ ok (take limit (select_events query.address (λ row. true) tables))
  | some cursor ↦ (do
    block_number ← postgres_int64 cursor.block_number
    log_index ← postgres_int64 cursor.log_index
    ok (take limit (select_events query.address (row_before block_number log_index) tables)))
]

-- The page of at most `limit + 1` events that were scanned. `last_or` has a last element wherever it
-- is read.
unfoldable pub cut_scanned : ℕ → List Event → EventPage
cut_scanned limit events =
    if leb (length events) limit
    then record { events = events; next_cursor = none }
    else (let shown = take (length events - 1) events in
        record { events = shown; next_cursor = some (cursor_at (last_or zero_event shown)) })

unfoldable pub query_address_event_page : Context → EventQuery → Tables → Result EventPage
query_address_event_page fault query tables =
    if query.limit == 0 then ok (record { events = []; next_cursor = none }) else (do
      query_limit ← postgres_int64 (query.limit + 1)
      rows ← query_rows query (query.limit + 1) tables
      alive fault
      events ← scan_postgres_events rows
      ok (cut_scanned query.limit events))

unfoldable pub canonical_cursor_exists : Context → EventCursor → Tables → Result Bool
canonical_cursor_exists fault cursor tables =
    if ltb max_int64 cursor.block_number then ok false else (do
      number ← postgres_int64 cursor.block_number
      alive fault
      ok (
          any_row
            (λ row. has_number number row && same_bytes row.hash (hash_bytes cursor.block_hash))
            tables.blocks))

abbrev page_before : ReadFaults → EventQuery → EventCursor → Tables → Result EventPage
page_before faults query cursor tables = do
  alive faults.at_begin
  valid ← canonical_cursor_exists faults.at_row cursor tables
  guard valid stale_cursor
  page ← query_address_event_page faults.at_events query tables
  alive faults.at_commit
  ok page

unfoldable pub events_by_address : Context → ReadFaults → EventQuery → Tables → Result EventPage
events_by_address ctx faults query tables = do
  alive ctx
  guard (leb query.limit max_event_page_size) invalid_query
  elim query.before [
    | none ↦ query_address_event_page faults.at_events query tables
    | some cursor ↦ page_before faults query cursor tables
  ]
