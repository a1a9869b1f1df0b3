-- ===== src/Server/Handlers/Paging.antt =====
-- A client that follows `next_cursor` on the in-memory store.
use ethindexer.Common.{
  ℕ, zero, suc, ◌≤◌, ◌<◌, ◌≡◌, refl, List, [], ◌∷◌, Option, some, arith, length, take, drop, map,
  last_or, lookup, get_elem?, keys, Distinct, elem-keys, All, All-append, All-take, All-last,
  All-sort_by,
}
use ethindexer.Failure.{ok}
use ethindexer.Domain.{Address, Event, EventCursor, BlockBundle}
use ethindexer.Store.Validate.{BundleMap}
use ethindexer.Store.Canonical.Chain.{IsCanonical}
use ethindexer.Store.Memory.{Memory}
use ethindexer.Store.Memory.Queries.{
  check_cursor, cut_page, selected_events, matching_events, clone_matching, newer, cursor_at,
  zero_event,
}
use ethindexer.Store.Memory.Resume.{selected_events_resume, clone_matching-Named, asked}
use ethindexer.Server.Numbers.{Text}
use ethindexer.Server.Cursor.{parse_event_cursor, encode_event_cursor}
use ethindexer.Server.Cursor.Coding.{FitsCursor, parse_event_cursor-encode_event_cursor}
use ethindexer.Server.Hex.{Hex, parse_event_address}
use ethindexer.Server.Responses.{new_event_response, new_event_page_response}
use ethindexer.Server.Handlers.{
  respond, page_body, Parameters, parse_event_limit, events_by_address,
}
use ethindexer.Server.Handlers.Lookups.{memory_service}
use ethindexer.Server.Handlers.Statuses.{parse_event_limit_bounds, events_by_address_answer}

-- Every stored event has the property.
abbrev pub AllStored : (Event → Type 0) → BundleMap → Type 0
AllStored P m =
    (n i : ℕ) (b : BlockBundle) (e : Event)
    → lookup n m ≡ some b
    → get_elem? b.events i ≡ some e
    → P e

module _ (P : Event → Type 0) where
  All-get : (es : List Event) → ((i : ℕ) (e : Event) → get_elem? es i ≡ some e → P e) → All P es
  All-get [] h = tt
  All-get (e ∷ es) h = (h 0 e refl, All-get es (λ i x at. h (suc i) x at))

  matching_events-Stored :
      (address : Address) (before : Option EventCursor) (m : BundleMap)
      → Distinct (keys m)
      → AllStored P m
      → All P (matching_events address before m)
  unfolding matching_events
  matching_events-Stored address before [] d h = tt
  matching_events-Stored address before ((k, b) ∷ m) (fresh, d) h =
      All-append P (clone_matching (asked address before) b.events)
        (matching_events address before m)
        (clone_matching-Named (asked address before) P b.events
          (All-get b.events (λ i e at. h k i b e (ground arith) at)))
        (matching_events-Stored address before m d
          (λ n i c e there at. h n i c e (ground (arith, there, fresh, elem-keys n m)) at))

  last_Stored :
      (address : Address) (before : Option EventCursor) (m : BundleMap) (n : ℕ)
      → Distinct (keys m)
      → AllStored P m
      → suc n ≤ length (selected_events address before m)
      → P (last_or zero_event (take (suc n) (selected_events address before m)))
  unfolding selected_events
  last_Stored address before m n d h enough =
      last_of n (selected_events address before m)
        (All-sort_by P newer (matching_events address before m)
          (matching_events-Stored address before m d h))
        enough
    where
      last_of :
          (n : ℕ) (es : List Event)
          → All P es
          → suc n ≤ length es
          → P (last_or zero_event (take (suc n) es))
      last_of n [] all short = absurd (ground (arith, short))
      last_of n (e ∷ es) (here, rest) short = All-last P e (take n es) here (All-take P n es rest)

stored_fresh :
    (m : BundleMap) → IsCanonical m → AllStored (λ e. check_cursor (some (cursor_at e)) m ≡ ok tt) m
stored_fresh m canonical n i b e at place =
    let owned = (canonical.consistent n b at).events_owned i e place in
    ground (arith, owned.0, owned.1, at)

-- On stored blocks that form a canonical chain and whose events have fields that fit their types: if
-- more events are left than the page of a well-formed request can hold, the answer carries a cursor,
-- and the same request with that cursor is answered with 200 and the page cut from the events behind
-- the first page, none of them lost and none repeated.
pub events_by_address_resumed :
    (hex : Hex) (m : Memory) (raw_address : Text) (parameters : Parameters) (address : Address)
    (limit : ℕ) (before : Option EventCursor)
    → Distinct (keys m.bundles)
    → IsCanonical m.bundles
    → AllStored (λ e. FitsCursor (cursor_at e)) m.bundles
    → parse_event_address hex raw_address ≡ ok address
    → parse_event_limit parameters.limit ≡ ok limit
    → parse_event_cursor parameters.cursor ≡ ok before
    → check_cursor before m.bundles ≡ ok tt
    → limit < length (selected_events address before m.bundles)
    → (link : Text) × (events_by_address hex (memory_service m) raw_address parameters
        ≡ respond 200 (
            page_body (record {
              events =
                  map
                    (new_event_response hex)
                    (take limit (selected_events address before m.bundles));
              next_cursor = some link;
            })))
      × (events_by_address hex
            (memory_service m)
            raw_address
            (record parameters { cursor = some (link ∷ []) })
          ≡ respond 200 (
              page_body (
                new_event_page_response hex
                  (cut_page limit (drop limit (selected_events address before m.bundles))))))
unfolding new_event_page_response cut_page
events_by_address_resumed hex m raw_address parameters address zero before d canonical fits a l c
      fresh more =
    absurd (ground (arith, parse_event_limit_bounds parameters.limit 0 l))
events_by_address_resumed hex m raw_address parameters address (suc n) before d canonical fits a l c
      fresh more =
    let es = selected_events address before m.bundles in
    let enough : suc n ≤ length es = omega (arith, more) in
    let cursor = cursor_at (last_or zero_event (take (suc n) es)) in
    let fit =
      last_Stored (λ e. FitsCursor (cursor_at e)) address before m.bundles n d fits enough in
    let current =
      last_Stored (λ e. check_cursor (some (cursor_at e)) m.bundles ≡ ok tt) address before
        m.bundles n d (stored_fresh m.bundles canonical) enough in
    (
      encode_event_cursor cursor,
      ground (
        arith,
        more,
        fresh,
        events_by_address_answer hex m raw_address parameters address (suc n) before a l c,
      ),
      ground (
        arith,
        current,
        selected_events_resume address before m.bundles n d canonical enough,
        events_by_address_answer hex m raw_address
            (record parameters { cursor = some (encode_event_cursor cursor ∷ []) }) address (suc n)
            (some cursor) a l (parse_event_cursor-encode_event_cursor cursor fit),
      ),
    )
