-- ===== src/Server/Handlers/Statuses.antt =====
-- The statuses of the events and readiness endpoints on the in-memory store.
use ethindexer.Common.{
  ℕ, ◌≤◌, ◌≡◌, ◌∙◌, ap, ◌⊎◌, refl, map, List, [], ◌∷◌, Option, none, some, arith, Option-cases, inl,
  inr,
}
use ethindexer.Failure.{Error, Result, ok, err, Context, matches, stale_cursor, Result-cases}
use ethindexer.Domain.{Address, Event, EventCursor, EventQuery, EventPage, max_event_page_size}
use ethindexer.Store.Validate.{BundleMap}
use ethindexer.Store.Memory.{Memory, highest_bundle, canonical_tip}
use ethindexer.Store.Memory.Queries.{check_cursor, cut_page, selected_events}
use ethindexer.Store.Memory.Pages.{
  IsPage, IsFresh, cut_page-IsPage, check_cursor-IsFresh, IsFresh-check_cursor,
}
use ethindexer.Service.{query_service, ready, translate_store_error}
use ethindexer.Service.Backed.{memory_readiness_store}
use ethindexer.Server.Numbers.{Text, parse_block_number}
use ethindexer.Server.Cursor.{parse_event_cursor, encode_event_cursor}
use ethindexer.Server.Hex.{Hex, parse_event_address}
use ethindexer.Server.Responses.{
  EventResponse, EventPageResponse, new_event_response, new_event_page_response,
}
use ethindexer.Server.Handlers.{
  Response, respond, write_error, page_body, stale_cursor_code, status_ready, status_not_ready,
  Parameters, parse_event_limit, events_by_address, readiness,
}
use ethindexer.Server.Handlers.Lookups.{memory_service}

-- `parseEventLimit` gives a page size from 1 to `MaxEventPageSize`.
pub parse_event_limit_bounds :
    (values : Option (List Text)) (limit : ℕ)
    → parse_event_limit values ≡ ok limit
    → (1 ≤ limit) × (limit ≤ max_event_page_size)
unfolding parse_event_limit
parse_event_limit_bounds none limit h = (ground (arith, h), ground (arith, h))
parse_event_limit_bounds (some []) limit h = absurd (ground (arith, h))
parse_event_limit_bounds (some (v ∷ w ∷ values)) limit h = absurd (ground (arith, h))
parse_event_limit_bounds (some (v ∷ [])) limit h = elim (Result-cases (parse_block_number v)) [
  | inr (e, bad) ↦ absurd (ground (arith, h, bad))
  | inl (n, good) ↦ (ground (arith, h, good), ground (arith, h, good))
]

check_cursor_fails :
    (before : Option EventCursor) (m : BundleMap) (e : Error)
    → check_cursor before m ≡ err e
    → e ≡ stale_cursor
check_cursor_fails none m e h = absurd (ground (arith, h))
check_cursor_fails (some cursor) m e h = ground (arith, h)

abbrev pub fresh_answer :
    Hex → ℕ → Address → Option EventCursor → BundleMap → Result (Unit {0}) → Response
fresh_answer hex limit address before m (err e) = write_error 409 stale_cursor_code
fresh_answer hex limit address before m (ok done) =
    respond 200
      (page_body (new_event_page_response hex (cut_page limit (selected_events address before m))))

pub events_by_address_answer :
    (hex : Hex) (m : Memory) (raw_address : Text) (parameters : Parameters) (address : Address)
    (limit : ℕ) (before : Option EventCursor)
    → parse_event_address hex raw_address ≡ ok address
    → parse_event_limit parameters.limit ≡ ok limit
    → parse_event_cursor parameters.cursor ≡ ok before
    → events_by_address hex (memory_service m) raw_address parameters
      ≡ fresh_answer hex limit address before m.bundles (check_cursor before m.bundles)
unfolding events_by_address query_service ethindexer.Store.Memory.Queries.events_by_address
    translate_store_error matches
events_by_address_answer hex m raw_address parameters address limit before a l c =
    elim (Result-cases (check_cursor before m.bundles)) [
      | inl (done, fresh) ↦
          ground (arith, a, l, c, fresh, parse_event_limit_bounds parameters.limit limit l)
      | inr (e, stale) ↦ ground (
        arith,
        a,
        l,
        c,
        stale,
        check_cursor_fails before m.bundles e stale,
        parse_event_limit_bounds parameters.limit limit l,
      )
    ]

-- What the API shows of an event.
abbrev pub event_shown : Hex → Event → EventResponse
event_shown hex event = record {
  block_number = event.block_number;
  block_hash = hex.hash_hex event.block_hash;
  transaction_hash = hex.hash_hex event.transaction_hash;
  transaction_index = event.transaction_index;
  log_index = event.log_index;
  address = hex.address_hex event.address;
  topics = map hex.hash_hex event.topics;
  payload = hex.encode event.payload;
}

abbrev pub link_shown : Option EventCursor → Option Text
link_shown none = none
link_shown (some cursor) = some (encode_event_cursor cursor)

abbrev pub page_shown : Hex → EventPage → EventPageResponse
page_shown hex page = record {
  events = map (event_shown hex) page.events;
  next_cursor = link_shown page.next_cursor;
}

-- The answer to a request whose cursor names a stored block by number and hash: 200 and a page.
pub record IsPaged (hex : Hex) (m : BundleMap) (query : EventQuery) (response : Response)
    : Type 0 where
  pub page : EventPage
  pub is_page : IsPage query m page
  pub shown : response ≡ respond 200 (page_body (page_shown hex page))

map-shown :
    (hex : Hex) (es : List Event) → map (new_event_response hex) es ≡ map (event_shown hex) es
unfolding new_event_response
map-shown hex [] = refl
map-shown hex (e ∷ es) = ground (arith, map-shown hex es)

new_event_page_response-shown :
    (hex : Hex) (page : EventPage) → new_event_page_response hex page ≡ page_shown hex page
unfolding new_event_page_response
new_event_page_response-shown hex page = elim (Option-cases page.next_cursor) [
  | inl last ↦ ground (arith, last, map-shown hex page.events)
  | inr (cursor, more) ↦ ground (arith, more, map-shown hex page.events)
]

-- A well-formed request for events is answered in one of two ways. If it has no cursor, or one that
-- names a stored block by number and hash, it is answered with 200 and a page: the first events of
-- the address that lie before the cursor, newest first, `limit` at most, each field under its own
-- name, with a link to the next page exactly if events are left. If its cursor names no stored
-- block, it is answered with 409.
pub events_by_address_served :
    (hex : Hex) (m : Memory) (raw_address : Text) (parameters : Parameters) (address : Address)
    (limit : ℕ) (before : Option EventCursor)
    → parse_event_address hex raw_address ≡ ok address
    → parse_event_limit parameters.limit ≡ ok limit
    → parse_event_cursor parameters.cursor ≡ ok before
    → (IsFresh before m.bundles
        × IsPaged hex m.bundles
            (record { address = address; limit = limit; before = before })
            (events_by_address hex (memory_service m) raw_address parameters))
      ⊎ ((¬ IsFresh before m.bundles)
          × (events_by_address hex (memory_service m) raw_address parameters
              ≡ write_error 409 stale_cursor_code))
events_by_address_served hex m raw_address parameters address limit before a l c =
    let answer = events_by_address_answer hex m raw_address parameters address limit before a l c in
    elim (Result-cases (check_cursor before m.bundles)) [
      | inl (done, fresh) ↦ inl (
        check_cursor-IsFresh before m.bundles fresh,
        record {
          page = cut_page limit (selected_events address before m.bundles);
          is_page =
              cut_page-IsPage (record { address = address; limit = limit; before = before })
                m.bundles;
          shown =
              answer
              ∙ ap (fresh_answer hex limit address before m.bundles) fresh
              ∙ ap (λ body. respond 200 (page_body body)) (new_event_page_response-shown hex _);
        },
      )
      | inr (e, stale) ↦ inr (
        λ fresh. absurd (ground (arith, stale, IsFresh-check_cursor before m.bundles fresh)),
        answer ∙ ap (fresh_answer hex limit address before m.bundles) stale,
      )
    ]

abbrev pub tip_answer : Option ℕ → Response
tip_answer none = respond 503 status_not_ready
tip_answer (some highest) = respond 200 (status_ready highest)

abbrev pub health_answer : Context → Option ℕ → Response
health_answer (some e) highest = respond 503 status_not_ready
health_answer none highest = tip_answer highest

-- The readiness endpoint on the in-memory store answers 503 while nothing is stored or if the context
-- has ended, and else 200 with the highest stored block number.
pub readiness_served :
    (ctx : Context) (m : Memory)
    → readiness (ready (memory_readiness_store ctx m))
      ≡ health_answer ctx (highest_bundle m.bundles)
unfolding readiness ready canonical_tip
readiness_served (some e) m = refl
readiness_served none m = elim (Option-cases (highest_bundle m.bundles)) [
  | inl nothing ↦ ground (arith, nothing)
  | inr (highest, is) ↦ ground (arith, is)
]
