-- ===== src/Store/Memory/Pages.antt =====
-- The pages of `EventsByAddress`.
use ethindexer.Common.{
  ℕ, zero, suc, ◌≤◌, ◌≡◌, ◌⊎◌, refl, get_elem?, inl, inr, List, [], ◌∷◌, Option, none, some, ◌==◌,
  ◌&&◌, ◌||◌, leb, arith, length, take, last_or, lookup, All, All-append, All-take, take_all,
  All-sort_by, Bool-cases, if◌then◌else◌, subst, sym, Option-cases,
}
use ethindexer.Failure.{ok, Context, >>=-eq-ok, guard-eq-ok, ok_inj, alive, invalid_query}
use ethindexer.Domain.{
  Address, Event, BlockBundle, EventCursor, EventQuery, EventPage, max_event_page_size,
}
use ethindexer.Store.Validate.{BundleMap}
use ethindexer.Store.Memory.Clone.{clone_event, clone_event_lem}
use ethindexer.Store.Memory.Queries.{
  clone_matching, event_before_cursor, newer, matching_events, selected_events, zero_event,
  cut_page, check_cursor, events_by_address,
}
use ethindexer.Store.Memory.Before.{IsAsked, event_before_cursor-IsBefore}
use ethindexer.Store.Memory.Selection.{IsIn, selected_events_complete}
use ethindexer.Store.Memory.Newest.{
  IsNewestFirst, sort_by-IsNewestFirst, take-IsNewestFirst, IsFullBefore, reached,
}

module _ (address : Address) (before : Option EventCursor) where
  clone_matching-All :
      (es : List Event)
      → All (IsAsked address before) (
          clone_matching (λ event. event.address == address && event_before_cursor event before) es)
  unfolding clone_matching
  clone_matching-All [] = tt
  clone_matching-All (e ∷ es) =
      elim (Bool-cases (e.address == address && event_before_cursor e before)) [
        | inr other ↦
            subst (All (IsAsked address before))
              {x = clone_matching
                (λ event. event.address == address && event_before_cursor event before) es}
              (ground (arith, other)) (clone_matching-All es)
        | inl asked ↦
            subst (All (IsAsked address before))
              {x = clone_event e
                ∷ clone_matching
                    (λ event. event.address == address && event_before_cursor event before) es}
              (ground (arith, asked))
              (
                subst (IsAsked address before) (sym (clone_event_lem e)) (
                  ground (arith, asked),
                  event_before_cursor-IsBefore before e (ground (arith, asked)),
                ),
                clone_matching-All es,
              )
      ]

  matching_events-All :
      (m : BundleMap) → All (IsAsked address before) (matching_events address before m)
  unfolding matching_events
  matching_events-All [] = tt
  matching_events-All ((n, b) ∷ m) =
      All-append (IsAsked address before) _ _ (clone_matching-All b.events) (matching_events-All m)

  pub selected_events-IsAsked :
      (m : BundleMap) → All (IsAsked address before) (selected_events address before m)
  unfolding selected_events
  selected_events-IsAsked m =
      All-sort_by (IsAsked address before) newer (matching_events address before m)
        (matching_events-All m)

-- The cursor that names an event.
abbrev pub cursor_to : Event → EventCursor
cursor_to e = record {
  block_number = e.block_number;
  block_hash = e.block_hash;
  log_index = e.log_index;
}

-- What a page holds: as many of the selected events as fit, and a cursor to the last one if more
-- are left. A stored event that the query asks for is missing only from a full page, and then it is
-- no newer than any event there.
pub record IsPage (query : EventQuery) (m : BundleMap) (page : EventPage) : Type 0 where
  pub cut : page.events ≡ take query.limit (selected_events query.address query.before m)
  pub few : length page.events ≤ query.limit
  pub asked : All (IsAsked query.address query.before) page.events
  pub ordered : IsNewestFirst page.events
  pub complete :
      (n i : ℕ) (b : BlockBundle) (e : Event)
      → lookup n m ≡ some b
      → get_elem? b.events i ≡ some e
      → IsAsked query.address query.before e
      → IsIn e page.events ⊎ IsFullBefore query.limit page.events e
  pub next : page.next_cursor ≡ (
      if leb (length (selected_events query.address query.before m)) query.limit || query.limit == 0
      then none
      else some (cursor_to (last_or zero_event page.events)))

length-take : (n : ℕ) (es : List Event) → length (take n es) ≤ n
length-take zero es = omega arith
length-take (suc n) [] = omega arith
length-take (suc n) (e ∷ es) = omega (arith, length-take n es)

cut_page_events : (n : ℕ) (es : List Event) → (cut_page n es).events ≡ take n es
unfolding cut_page
cut_page_events zero es = ground arith
cut_page_events (suc n) [] = ground arith
cut_page_events (suc n) (e ∷ es) = ground (arith, take_all (suc n) (e ∷ es))

cut_page_next :
    (n : ℕ) (es : List Event)
    → (cut_page n es).next_cursor ≡ (
        if leb (length es) n || n == 0
        then none
        else some (cursor_to (last_or zero_event (take n es))))
unfolding cut_page
cut_page_next n [] = ground arith
cut_page_next n (e ∷ es) = ground arith

pub cut_page-IsPage :
    (query : EventQuery) (m : BundleMap)
    → IsPage query m (cut_page query.limit (selected_events query.address query.before m))
unfolding selected_events
cut_page-IsPage query m =
    let all = selected_events query.address query.before m in
    let events = cut_page_events query.limit all in
    record {
      cut = events;
      few = rw events (length-take query.limit all);
      asked = rw events (
          All-take (IsAsked query.address query.before) query.limit all
            (selected_events-IsAsked query.address query.before m));
      ordered = rw events (
          take-IsNewestFirst query.limit all
            (sort_by-IsNewestFirst (matching_events query.address query.before m)));
      complete = λ n i b e at place is. rw events (
          reached query.limit all e
            (sort_by-IsNewestFirst (matching_events query.address query.before m))
            (selected_events_complete query.address query.before m n i b e at place is.0 is.1));
      next = rw events (cut_page_next query.limit all);
    }

-- The cursor names a stored block by number and hash.
abbrev pub IsFresh : Option EventCursor → BundleMap → Type 0
IsFresh none m = Unit
IsFresh (some cursor) m =
    (b : BlockBundle) × (lookup cursor.block_number m ≡ some b) × (b.block.hash ≡ cursor.block_hash)

pub check_cursor-IsFresh :
    (before : Option EventCursor) (m : BundleMap) → check_cursor before m ≡ ok tt → IsFresh before m
check_cursor-IsFresh none m h = tt
check_cursor-IsFresh (some cursor) m h = elim (Option-cases (lookup cursor.block_number m)) [
  | inl missing ↦ absurd (ground (arith, h))
  | inr (b, is) ↦ (b, is, ground (arith, h, is))
]

pub IsFresh-check_cursor :
    (before : Option EventCursor) (m : BundleMap) → IsFresh before m → check_cursor before m ≡ ok tt
IsFresh-check_cursor none m h = refl
IsFresh-check_cursor (some cursor) m (b, at, same) = ground (arith, at, same)

-- A page that `EventsByAddress` returns: its cursor is not stale, and it holds the first `Limit` of
-- the events of the address before the cursor, newest first by block number and log index, so that
-- an event it asks for is missing only if the page is full of events that are no older. It has a
-- next cursor, which names its last event, exactly if the limit is positive and more are left.
pub events_by_address-IsPage :
    (ctx : Context) (query : EventQuery) (m : BundleMap) (page : EventPage)
    → events_by_address ctx query m ≡ ok page
    → IsPage query m page × IsFresh query.before m
unfolding events_by_address
events_by_address-IsPage ctx query m page h =
    let (_, _, h₁) = >>=-eq-ok (alive ctx) _ h in
    let (_, h₂) = guard-eq-ok (leb query.limit max_event_page_size) invalid_query _ h₁ in
    let (_, checked, h₃) = >>=-eq-ok (check_cursor query.before m) _ h₂ in
    (
      subst (IsPage query m)
          (ok_inj (cut_page query.limit (selected_events query.address query.before m)) page h₃)
          (cut_page-IsPage query m),
      check_cursor-IsFresh query.before m checked,
    )
