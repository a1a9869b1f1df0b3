-- ===== src/Store/Memory/Queries.antt =====
-- internal/store/memory.go: `BlockByNumber`, `TransactionByHash` and `EventsByAddress`.
use ethindexer.Common.{
  ℕ, List, [], ◌∷◌, ◌++◌, Option, none, some, Bool, true, false, ◌&&◌, ◌||◌, leb, ltb, ◌==◌,
  if◌then◌else◌, lookup, length, take, last_or, sort_by,
}
use ethindexer.Failure.{
  Result, ok, err, ◌>>◌, guard, alive, Context, not_found, invalid_query, stale_cursor,
}
use ethindexer.Domain.{
  Hash, Address, Transaction, Event, BlockBundle, BlockResult, TransactionResult, EventCursor,
  EventQuery, EventPage, max_event_page_size,
}
use ethindexer.Store.Validate.{BundleMap}
use ethindexer.Store.Validate.Transactions.{hashes}
use ethindexer.Store.Memory.Clone.{clone_block, clone_transaction, clone_event}

abbrev block_result : Option BlockBundle → Result BlockResult
block_result none = err not_found
block_result (some bundle) =
    ok
      (record { block = clone_block bundle.block; transaction_hashes = hashes bundle.transactions })

unfoldable pub block_by_number : Context → ℕ → BundleMap → Result BlockResult
block_by_number ctx number bundles = do alive ctx; block_result (lookup number bundles)

-- The inner loop of `TransactionByHash`.
unfoldable pub find_transaction : Hash → List Transaction → Option Transaction
find_transaction hash [] = none
find_transaction hash (transaction ∷ rest) =
    if transaction.hash == hash then some transaction else find_transaction hash rest

-- The copies of the events that pass a test, in order.
unfoldable pub clone_matching : (Event → Bool) → List Event → List Event
clone_matching test [] = []
clone_matching test (event ∷ rest) =
    if test event then clone_event event ∷ clone_matching test rest else clone_matching test rest

abbrev pub earlier_log : Event → Event → Bool
earlier_log left right = ltb left.log_index right.log_index

-- The events of one transaction of the bundle.
unfoldable pub transaction_events : Hash → BlockBundle → List Event
transaction_events hash bundle =
    sort_by earlier_log (clone_matching (λ event. event.transaction_hash == hash) bundle.events)

-- The loop over the bundles, in the order of the map.
unfoldable pub search_transaction : Hash → BundleMap → Result TransactionResult
search_transaction hash [] = err not_found
search_transaction hash ((number, bundle) ∷ bundles) =
    let later = search_transaction hash bundles in
    elim (find_transaction hash bundle.transactions) [
      | none ↦ later
      | some transaction ↦ ok (record {
        transaction = clone_transaction transaction;
        events = transaction_events hash bundle;
      })
    ]

unfoldable pub transaction_by_hash : Context → Hash → BundleMap → Result TransactionResult
transaction_by_hash ctx hash bundles = do alive ctx; search_transaction hash bundles

unfoldable pub event_before_cursor : Event → Option EventCursor → Bool
event_before_cursor event none = true
event_before_cursor event (some cursor) =
    if event.block_number == cursor.block_number
    then ltb event.log_index cursor.log_index
    else ltb event.block_number cursor.block_number

-- `events[left]` stands before `events[right]`: newest first.
abbrev pub newer : Event → Event → Bool
newer left right =
    if left.block_number == right.block_number
    then ltb right.log_index left.log_index
    else ltb right.block_number left.block_number

-- The loops over the bundles and their events.
unfoldable pub matching_events : Address → Option EventCursor → BundleMap → List Event
matching_events address before [] = []
matching_events address before ((number, bundle) ∷ bundles) =
    clone_matching (λ event. event.address == address && event_before_cursor event before)
      bundle.events
    ++ matching_events address before bundles

-- The sorted list that a page is cut from.
unfoldable pub selected_events : Address → Option EventCursor → BundleMap → List Event
selected_events address before bundles = sort_by newer (matching_events address before bundles)

abbrev pub zero_event : Event
zero_event = record {
  block_number = 0;
  block_hash = 0;
  transaction_hash = 0;
  transaction_index = 0;
  log_index = 0;
  address = 0;
  topics = [];
  payload = [];
}

abbrev pub cursor_at : Event → EventCursor
cursor_at last = record {
  block_number = last.block_number;
  block_hash = last.block_hash;
  log_index = last.log_index;
}

-- A page cut from the sorted events. `last_or` has a last element wherever it is read.
unfoldable pub cut_page : ℕ → List Event → EventPage
cut_page limit events =
    if limit == 0 || length events == 0
    then record { events = []; next_cursor = none }
    else (if leb (length events) limit
        then record { events = events; next_cursor = none }
        else record {
          events = take limit events;
          next_cursor = some (cursor_at (last_or zero_event (take limit events)));
        })

abbrev pub is_current : Option BlockBundle → EventCursor → Bool
is_current none cursor = false
is_current (some bundle) cursor = bundle.block.hash == cursor.block_hash

abbrev pub check_cursor : Option EventCursor → BundleMap → Result (Unit {0})
check_cursor none bundles = ok tt
check_cursor (some cursor) bundles =
    guard (is_current (lookup cursor.block_number bundles) cursor) stale_cursor

unfoldable pub events_by_address : Context → EventQuery → BundleMap → Result EventPage
events_by_address ctx query bundles = do
  alive ctx
  guard (leb query.limit max_event_page_size) invalid_query
  check_cursor query.before bundles
  ok (cut_page query.limit (selected_events query.address query.before bundles))
