-- ===== src/Store/Memory/Selection.antt =====
-- The events that `EventsByAddress` selects before it cuts a page.
use ethindexer.Common.{
  ℕ, zero, suc, ◌≡◌, inl, inr, List, [], ◌∷◌, ◌++◌, Option, some, Bool, true, ◌==◌, ◌&&◌, arith,
  get_elem?, lookup, sort_by, place, Bool-cases,
}
use ethindexer.Domain.{Address, Event, BlockBundle, EventCursor}
use ethindexer.Store.Validate.{BundleMap}
use ethindexer.Store.Memory.Clone.{clone_event_lem}
use ethindexer.Store.Memory.Before.{IsBefore, IsBefore-event_before_cursor}
use ethindexer.Store.Memory.Queries.{
  clone_matching, event_before_cursor, newer, matching_events, selected_events,
}

abbrev pub IsIn : Event → List Event → Type 0
IsIn e es = (i : ℕ) × (get_elem? es i ≡ some e)

later_IsIn : (e x : Event) (es : List Event) → IsIn e es → IsIn e (x ∷ es)
later_IsIn e x es (i, at) = (suc i, at)

module _ (less : Event → Event → Bool) where
  place-IsIn : (e x : Event) (es : List Event) → IsIn e (x ∷ es) → IsIn e (place less x es)
  place-IsIn e x [] h = h
  place-IsIn e x (y ∷ ys) h = elim (Bool-cases (less y x)) [
    | inr first ↦ (h.0, ground (arith, first, h.1))
    | inl later ↦ moved later (place-IsIn e x ys) h
  ]
    where
      behind : less y x ≡ true → IsIn e (place less x ys) → IsIn e (place less x (y ∷ ys))
      behind later (i, at) = (suc i, ground (arith, later, at))

      moved :
          less y x ≡ true
          → (IsIn e (x ∷ ys) → IsIn e (place less x ys))
          → IsIn e (x ∷ y ∷ ys)
          → IsIn e (place less x (y ∷ ys))
      moved later rest (zero, at) = behind later (rest (zero, at))
      moved later rest (suc zero, at) = (zero, ground (arith, later, at))
      moved later rest (suc (suc i), at) = behind later (rest (suc i, at))

  pub sort_by-IsIn : (e : Event) (es : List Event) → IsIn e es → IsIn e (sort_by less es)
  sort_by-IsIn e [] h = h
  sort_by-IsIn e (x ∷ es) (zero, at) = place-IsIn e x (sort_by less es) (zero, at)
  sort_by-IsIn e (x ∷ es) (suc i, at) =
      place-IsIn e x (sort_by less es)
        (later_IsIn e x (sort_by less es) (sort_by-IsIn e es (i, at)))

append-IsIn_left : (e : Event) (xs ys : List Event) → IsIn e xs → IsIn e (xs ++ ys)
append-IsIn_left e [] ys (i, at) = absurd (ground (arith, at))
append-IsIn_left e (x ∷ xs) ys (zero, at) = (zero, at)
append-IsIn_left e (x ∷ xs) ys (suc i, at) =
    later_IsIn e x (xs ++ ys) (append-IsIn_left e xs ys (i, at))

append-IsIn_right : (e : Event) (xs ys : List Event) → IsIn e ys → IsIn e (xs ++ ys)
append-IsIn_right e [] ys h = h
append-IsIn_right e (x ∷ xs) ys h = later_IsIn e x (xs ++ ys) (append-IsIn_right e xs ys h)

pub clone_matching-IsIn :
    (test : Event → Bool) (es : List Event) (i : ℕ) (e : Event)
    → get_elem? es i ≡ some e
    → test e ≡ true
    → IsIn e (clone_matching test es)
unfolding clone_matching
clone_matching-IsIn test [] i e at h = absurd (ground (arith, at))
clone_matching-IsIn test (x ∷ es) zero e at h = (zero, ground (arith, at, h, clone_event_lem e))
clone_matching-IsIn test (x ∷ es) (suc i) e at h = behind (clone_matching-IsIn test es i e at h)
  where
    behind : IsIn e (clone_matching test es) → IsIn e (clone_matching test (x ∷ es))
    behind (j, there) = elim (Bool-cases (test x)) [
      | inl passes ↦ (suc j, ground (arith, passes, there))
      | inr fails ↦ (j, ground (arith, fails, there))
    ]

matching_events-IsIn :
    (address : Address) (before : Option EventCursor) (m : BundleMap) (n i : ℕ) (b : BlockBundle)
    (e : Event)
    → lookup n m ≡ some b
    → get_elem? b.events i ≡ some e
    → (e.address == address && event_before_cursor e before) ≡ true
    → IsIn e (matching_events address before m)
unfolding matching_events
matching_events-IsIn address before [] n i b e at place h = absurd (ground (arith, at))
matching_events-IsIn address before ((k, c) ∷ m) n i b e at place h = elim (Bool-cases (k == n)) [
  | inl here ↦ append-IsIn_left e _ (matching_events address before m) (
      clone_matching-IsIn (λ event. event.address == address && event_before_cursor event before)
        c.events i e (ground (arith, at, here, place)) h)
  | inr later ↦
      append-IsIn_right e _ (matching_events address before m)
        (matching_events-IsIn address before m n i b e (ground (arith, at, later)) place h)
]

-- No event is lost: every event of a stored block that has the address and lies before the cursor is
-- among the events that `EventsByAddress` cuts its pages from.
pub selected_events_complete :
    (address : Address) (before : Option EventCursor) (m : BundleMap) (n i : ℕ) (b : BlockBundle)
    (e : Event)
    → lookup n m ≡ some b
    → get_elem? b.events i ≡ some e
    → e.address ≡ address
    → IsBefore before e
    → IsIn e (selected_events address before m)
unfolding selected_events
selected_events_complete address before m n i b e at place same earlier =
    sort_by-IsIn newer e (matching_events address before m) (
      matching_events-IsIn address before m n i b e at place
        (ground (arith, same, IsBefore-event_before_cursor before e earlier)))
