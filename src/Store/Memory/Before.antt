-- ===== src/Store/Memory/Before.antt =====
-- Which events a query to `EventsByAddress` of internal/store/memory.go asks for.
use ethindexer.Common.{
  ◌<◌, ◌≡◌, ◌⊎◌, refl, inl, inr, Option, none, some, true, ◌==◌, arith, Bool-cases,
}
use ethindexer.Domain.{Address, Event, EventCursor}
use ethindexer.Store.Memory.Queries.{event_before_cursor}

-- The event lies strictly before the cursor: in an earlier block, or earlier in the same one.
abbrev pub IsBefore : Option EventCursor → Event → Type 0
IsBefore none e = Unit
IsBefore (some cursor) e =
    (e.block_number < cursor.block_number)
    ⊎ ((e.block_number ≡ cursor.block_number) × (e.log_index < cursor.log_index))

pub event_before_cursor-IsBefore :
    (before : Option EventCursor) (e : Event)
    → event_before_cursor e before ≡ true
    → IsBefore before e
unfolding event_before_cursor
event_before_cursor-IsBefore none e h = tt
event_before_cursor-IsBefore (some cursor) e h =
    elim (Bool-cases (e.block_number == cursor.block_number)) [
      | inl same ↦ inr (ground (arith, same), ground (arith, same, h))
      | inr other ↦ inl (ground (arith, other, h))
    ]

pub IsBefore-event_before_cursor :
    (before : Option EventCursor) (e : Event)
    → IsBefore before e
    → event_before_cursor e before ≡ true
unfolding event_before_cursor
IsBefore-event_before_cursor none e h = refl
IsBefore-event_before_cursor (some cursor) e (inl below) = ground (arith, below)
IsBefore-event_before_cursor (some cursor) e (inr (same, earlier)) = ground (arith, same, earlier)

-- The event is one that the query asks for.
abbrev pub IsAsked : Address → Option EventCursor → Event → Type 0
IsAsked address before e = (e.address ≡ address) × IsBefore before e
