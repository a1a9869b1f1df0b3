-- ===== src/Store/Postgres/Events/Paging.antt =====
-- That `LIMIT limit + 1` is enough to cut a page.
use ethindexer.Common.{
  ℕ, zero, suc, ◌+◌, ◌-◌, ◌≤◌, ◌≡◌, inl, inr, refl, List, [], ◌∷◌, Option, none, some, true, arith,
  length, take, ◌==◌, take_all, take-take, length-take_exact, ◌<◌, pos, leb, Bytes, Bool-cases,
  Option-cases,
}
use ethindexer.Failure.{ok, >>=-eq-ok}
use ethindexer.Domain.{Event, EventCursor, EventQuery, uint32_size}
use ethindexer.Store.Memory.Queries.{cut_page}
use ethindexer.Store.Postgres.Columns.{max_int64, postgres_int64}
use ethindexer.Store.Postgres.Rows.{EventRow, decode_event}
use ethindexer.Store.Postgres.Tables.{Tables}
use ethindexer.Store.Postgres.Reads.{scan_postgres_events}
use ethindexer.Store.Postgres.Events.{
  select_events, query_rows, row_before, cut_scanned, query_address_event_page,
}

scan-take :
    (n : ℕ) (rows : List (Bytes × EventRow)) (es : List Event)
    → scan_postgres_events rows ≡ ok es
    → scan_postgres_events (take n rows) ≡ ok (take n es)
unfolding scan_postgres_events
scan-take zero rows es h = refl
scan-take (suc n) [] es h = ground (arith, h)
scan-take (suc n) ((hash, row) ∷ rows) es h =
    let (e, decoded, h₁) = >>=-eq-ok (decode_event hash row) _ h in
    let (rest, scanned, h₂) = >>=-eq-ok (scan_postgres_events rows) _ h₁ in
    ground (arith, decoded, scan-take n rows rest scanned, h₂)

-- The page cut from one event more than the limit is the page that the in-memory store cuts from all
-- events.
pub cut_scanned-cut_page :
    (n : ℕ) (es : List Event) → cut_scanned (suc n) (take (suc n + 1) es) ≡ cut_page (suc n) es
unfolding cut_scanned cut_page
cut_scanned-cut_page n es = elim (Bool-cases (leb (length es) (suc n))) [
  | inl few ↦ ground (arith, few, take_all (suc n + 1) es)
  | inr many ↦
      ground (arith, many, length-take_exact (suc n + 1) es, take-take (suc n) (suc n + 1) es)
]

cut_page_zero : (es : List Event) → cut_page 0 es ≡ record { events = []; next_cursor = none }
unfolding cut_page
cut_page_zero es = refl

module _ (tables : Tables) (query : EventQuery) (es : List Event) where
  -- All rows that the query's conditions select.
  abbrev pub selected_rows : Option EventCursor → List (Bytes × EventRow)
  selected_rows none = select_events query.address (λ row. true) tables
  selected_rows (some cursor) =
      select_events query.address (row_before (pos cursor.block_number) (pos cursor.log_index))
        tables

  -- A page that the PostgreSQL store reads without a fault is the page that the in-memory store would
  -- cut from the events of all selected rows, if these can be decoded: fetching one row more than the
  -- limit loses no page and no cursor. The limit is a uint32, and the cursor's numbers fit a bigint.
  pub query_address_event_page-cut_page :
      query.limit < uint32_size
      → scan_postgres_events (selected_rows query.before) ≡ ok es
      → ((cursor : EventCursor)
          → query.before ≡ some cursor
          → (cursor.block_number ≤ max_int64) × (cursor.log_index ≤ max_int64))
      → query_address_event_page none query tables ≡ ok (cut_page query.limit es)
  unfolding query_address_event_page query_rows postgres_int64
  query_address_event_page-cut_page small scanned fits = elim (Bool-cases (query.limit == 0)) [
    | inl zero_limit ↦ ground (arith, zero_limit, cut_page_zero es)
    | inr some_limit ↦ elim (Option-cases query.before) [
      | inl all ↦ ground (
        arith,
        small,
        some_limit,
        all,
        scanned,
        scan-take (query.limit + 1) (selected_rows query.before) es scanned,
        cut_scanned-cut_page (query.limit - 1) es,
      )
      | inr (cursor, is) ↦ ground (
        arith,
        small,
        some_limit,
        is,
        (fits cursor is).0,
        (fits cursor is).1,
        scanned,
        scan-take (query.limit + 1) (selected_rows query.before) es scanned,
        cut_scanned-cut_page (query.limit - 1) es,
      )
    ]
  ]
