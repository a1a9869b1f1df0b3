-- ===== src/Examples/Http.antt =====
-- Requests to a store with one block of one transaction and two events.
use ethindexer.Common.{
  ℕ, zero, suc, ◌≡◌, ◌⊎◌, pos, refl, subst, to_be, from_be, [], ◌∷◌, none, some, arith, keys,
  Distinct, get_elem?, length, map, take, drop, last_or,
}
use ethindexer.Failure.{ok}
use ethindexer.Domain.{Event, EventCursor, BlockBundle}
use ethindexer.Store.Validate.{BundleMap, validate_canonical_bundles}
use ethindexer.Store.Canonical.Chain.{IsCanonical, validate-IsCanonical}
use ethindexer.Store.Memory.{Memory, highest_bundle}
use ethindexer.Store.Memory.Queries.{
  check_cursor, cut_page, selected_events, event_before_cursor, transaction_events, cursor_at,
  zero_event,
}
use ethindexer.Store.Memory.Resume.{selected_events_resume}
use ethindexer.Store.Memory.Pages.{IsFresh}
use ethindexer.Service.{ready}
use ethindexer.Service.Backed.{memory_readiness_store}
use ethindexer.Server.Numbers.{Text, decimal, parse_block_number}
use ethindexer.Server.Numbers.Decimal.{places, digit_value, parse_block_number_lem}
use ethindexer.Server.Numbers.Laws.{parse_block_number-decimal}
use ethindexer.Server.Cursor.{parse_event_cursor, encode_event_cursor}
use ethindexer.Server.Cursor.Coding.{
  FitsCursor, parse_event_cursor-encode_event_cursor, parse_event_cursor-FitsCursor,
}
use ethindexer.Server.Hex.{parse_event_address}
use ethindexer.Server.Responses.{
  BlockResponse, TransactionResponse, new_event_response, new_event_page_response,
  new_transaction_response,
}
use ethindexer.Server.Handlers.{
  Parameters, respond, page_body, block_body, transaction_body, parse_event_limit, block_by_number,
  transaction_by_hash, events_by_address, write_error, stale_cursor_code,
}
use ethindexer.Server.Handlers.Lookups.{
  memory_service, block_shown, block_by_number_served, transaction_by_hash_linked,
}
use ethindexer.Server.Handlers.Statuses.{
  IsPaged, events_by_address_served, readiness_served, health_answer,
}
use ethindexer.Server.Handlers.Paging.{AllStored, events_by_address_resumed}
use ethindexer.Examples.Ranges.{busy_bundle, mapped_transfer, mapped_log}
use ethindexer.Examples.LowerHex.{lower_hex, lower_hex-IsHex}

abbrev talking_bundle : BlockBundle
talking_bundle = record busy_bundle {
  events = mapped_log ∷ record mapped_log { log_index = 4 } ∷ [];
}

abbrev talking : Memory
talking = record { chain_id = 1; bundles = (5, talking_bundle) ∷ []; last_synced_at = 0 }

talking-Distinct : Distinct (keys talking.bundles)
talking-Distinct = ground arith

talking_passes : validate_canonical_bundles talking.bundles ≡ ok tt
unfolding validate_canonical_bundles ethindexer.Store.Validate.sorted_block_numbers
    ethindexer.Store.Validate.check_bundles ethindexer.Store.Validate.check_bundle
    ethindexer.Store.Validate.check_transactions ethindexer.Store.Validate.check_events
talking_passes = refl

talking-IsCanonical : IsCanonical talking.bundles
talking-IsCanonical = validate-IsCanonical talking.bundles talking-Distinct talking_passes

-- The strings "5" and "007".
abbrev five : Text
five = 53 ∷ []

abbrev padded_seven : Text
padded_seven = 48 ∷ 48 ∷ 55 ∷ []

parse_block_number_lem_example : parse_block_number padded_seven ≡ ok 7
unfolding places digit_value
parse_block_number_lem_example = parse_block_number_lem padded_seven

parse_block_number-decimal_example : parse_block_number (decimal 5) ≡ ok 5
parse_block_number-decimal_example = parse_block_number-decimal 5 (ground arith)

abbrev first_cursor : EventCursor
first_cursor = record { block_number = 5; block_hash = 105; log_index = 4 }

first_cursor-FitsCursor : FitsCursor first_cursor
first_cursor-FitsCursor = record {
  block_number = ground arith;
  block_hash = ground arith;
  log_index = ground arith;
}

parse_event_cursor-encode_event_cursor_example :
    parse_event_cursor (some (encode_event_cursor first_cursor ∷ [])) ≡ ok (some first_cursor)
parse_event_cursor-encode_event_cursor_example =
    parse_event_cursor-encode_event_cursor first_cursor first_cursor-FitsCursor

parse_event_cursor-FitsCursor_example :
    FitsCursor first_cursor
    × (encode_event_cursor first_cursor ∷ [] ≡ encode_event_cursor first_cursor ∷ [])
parse_event_cursor-FitsCursor_example =
    parse_event_cursor-FitsCursor (encode_event_cursor first_cursor ∷ []) first_cursor
      parse_event_cursor-encode_event_cursor_example

block_by_number_served_example :
    block_by_number lower_hex (memory_service talking) five
    ≡ respond 200 (block_body (block_shown lower_hex talking_bundle))
unfolding places digit_value
block_by_number_served_example = block_by_number_served lower_hex talking five

transaction_by_hash_linked_example :
    (page : BlockResponse) × (link : Text) × (r : TransactionResponse) × (block_by_number lower_hex
        (memory_service talking)
        (decimal 5)
      ≡ respond 200 (block_body page))
    × (get_elem? page.transaction_hashes 0 ≡ some link)
    × (transaction_by_hash lower_hex (memory_service talking) link
        ≡ respond 200 (transaction_body r))
    × (new_transaction_response lower_hex
          (record { transaction = mapped_transfer; events = transaction_events 900 talking_bundle })
        ≡ ok r)
transaction_by_hash_linked_example =
    transaction_by_hash_linked lower_hex talking 5 0 talking_bundle mapped_transfer (pos 5)
      lower_hex-IsHex (ground arith) talking-Distinct talking-IsCanonical refl refl (ground arith)
      refl

abbrev raw_address : Text
raw_address = lower_hex.address_hex 8

-- `?limit=1`
abbrev one_each : Parameters
one_each = record { limit = some ((49 ∷ []) ∷ []); cursor = none }

address_parsed : parse_event_address lower_hex raw_address ≡ ok 8
unfolding parse_event_address to_be from_be
address_parsed = refl

limit_parsed : parse_event_limit one_each.limit ≡ ok 1
unfolding parse_event_limit parse_block_number ethindexer.Server.Numbers.is_decimal
    ethindexer.Server.Numbers.scan
limit_parsed = refl

cursor_parsed : parse_event_cursor one_each.cursor ≡ ok none
unfolding parse_event_cursor
cursor_parsed = refl

two_selected : length (selected_events 8 none talking.bundles) ≡ 2
unfolding selected_events ethindexer.Store.Memory.Queries.matching_events
    ethindexer.Store.Memory.Queries.clone_matching event_before_cursor
    ethindexer.Store.Memory.Clone.clone_event
two_selected = refl

fits_of :
    (e : Event) (i : ℕ) → get_elem? talking_bundle.events i ≡ some e → FitsCursor (cursor_at e)
fits_of e zero at = record {
  block_number = ground (arith, at);
  block_hash = ground (arith, at);
  log_index = ground (arith, at);
}
fits_of e (suc zero) at = record {
  block_number = ground (arith, at);
  block_hash = ground (arith, at);
  log_index = ground (arith, at);
}
fits_of e (suc (suc i)) at = absurd (ground (arith, at))

talking-FitsCursor : AllStored (λ e. FitsCursor (cursor_at e)) talking.bundles
talking-FitsCursor n i b e at place =
    let is : b ≡ talking_bundle = ground (arith, at) in
    fits_of e i (subst (λ c. get_elem? c.events i ≡ some e) is place)

-- `?limit=1` and the cursor to the later event.
abbrev one_more : Parameters
one_more = record one_each { cursor = some (encode_event_cursor first_cursor ∷ []) }

events_by_address_served_example :
    (IsFresh (some first_cursor) talking.bundles
      × IsPaged lower_hex talking.bundles
          (record { address = 8; limit = 1; before = some first_cursor })
          (events_by_address lower_hex (memory_service talking) raw_address one_more))
    ⊎ ((¬ IsFresh (some first_cursor) talking.bundles)
        × (events_by_address lower_hex (memory_service talking) raw_address one_more
            ≡ write_error 409 stale_cursor_code))
events_by_address_served_example =
    events_by_address_served lower_hex talking raw_address one_more 8 1 (some first_cursor)
      address_parsed limit_parsed
      (parse_event_cursor-encode_event_cursor first_cursor first_cursor-FitsCursor)

events_by_address_resumed_example :
    (link : Text) × (events_by_address lower_hex (memory_service talking) raw_address one_each
      ≡ respond 200 (
          page_body (record {
            events =
                map
                  (new_event_response lower_hex)
                  (take 1 (selected_events 8 none talking.bundles));
            next_cursor = some link;
          })))
    × (events_by_address lower_hex
          (memory_service talking)
          raw_address
          (record one_each { cursor = some (link ∷ []) })
        ≡ respond 200 (
            page_body (
              new_event_page_response lower_hex
                (cut_page 1 (drop 1 (selected_events 8 none talking.bundles))))))
events_by_address_resumed_example =
    events_by_address_resumed lower_hex talking raw_address one_each 8 1 none talking-Distinct
      talking-IsCanonical talking-FitsCursor address_parsed limit_parsed cursor_parsed refl
      (ground (arith, two_selected))

selected_events_resume_example :
    selected_events 8
      (some (cursor_at (last_or zero_event (take 1 (selected_events 8 none talking.bundles)))))
      talking.bundles
    ≡ drop 1 (selected_events 8 none talking.bundles)
selected_events_resume_example =
    selected_events_resume 8 none talking.bundles 0 talking-Distinct talking-IsCanonical
      (ground (arith, two_selected))

readiness_served_test :
    ethindexer.Server.Handlers.readiness (ready (memory_readiness_store none talking))
    ≡ health_answer none (highest_bundle talking.bundles)
readiness_served_test = readiness_served none talking
