-- ===== src/Store/Memory/Resume.antt =====
-- `EventsByAddress` of internal/store/memory.go: the page behind a page.
use ethindexer.Common.{
  ℕ, suc, ◌≤◌, ◌≡◌, inl, inr, refl, sym, ◌∙◌, ap, List, [], ◌∷◌, ◌++◌, Option, none, some, Bool,
  true, false, ◌&&◌, ◌==◌, arith, take, drop, length, last_or, filter_by, sort_by, Bool-cases,
  subst, All, All-map, All-last, All-append, All-take, lookup, keys, elem, elem-keys, Distinct,
  get_elem?,
}
use ethindexer.Domain.{Address, Event, EventCursor, BlockBundle}
use ethindexer.Store.Validate.{BundleMap}
use ethindexer.Store.Validate.Events.{log_indexes}
use ethindexer.Store.Canonical.Bundle.{IsConsistent}
use ethindexer.Store.Canonical.Chain.{IsCanonical}
use ethindexer.Store.Memory.Clone.{clone_event_lem}
use ethindexer.Store.Memory.Queries.{
  clone_matching, event_before_cursor, newer, matching_events, selected_events, zero_event,
  cursor_at,
}
use ethindexer.Store.Memory.Before.{IsAsked, IsBefore-event_before_cursor}
use ethindexer.Store.Memory.Pages.{selected_events-IsAsked}
use ethindexer.Store.Memory.Strict.{
  IsApart, apart, sort_by-IsStrict, older, filter_by-sort_by, filter_by-drop,
}

-- The events of a bundle at `n`: they name it, and no log index stands twice.
record IsOwned (n : ℕ) (b : BlockBundle) : Type 0 where
  named : All (λ e. e.block_number ≡ n) b.events
  distinct : Distinct (log_indexes b.events)

each_named :
    (n : ℕ) (es : List Event)
    → ((i : ℕ) (e : Event) → get_elem? es i ≡ some e → e.block_number ≡ n)
    → All (λ e. e.block_number ≡ n) es
each_named n [] h = tt
each_named n (e ∷ es) h = (h 0 e refl, each_named n es (λ i x at. h (suc i) x at))

entries-IsOwned :
    (m : BundleMap)
    → Distinct (keys m)
    → ((n : ℕ) (b : BlockBundle) → lookup n m ≡ some b → IsConsistent n b)
    → All (λ (n, b). IsOwned n b) m
entries-IsOwned [] d h = tt
entries-IsOwned ((k, b) ∷ m) (fresh, d) h =
    let consistent = h k b (ground arith) in
    (
      record {
        named = each_named k b.events (λ i e at. (consistent.events_owned i e at).0);
        distinct = consistent.events_distinct;
      },
      entries-IsOwned m d (λ n c at. h n c (ground (arith, at, fresh, elem-keys n m))),
    )

module _ (test : Event → Bool) where
  pub clone_matching-Named :
      (P : Event → Type 0) (es : List Event) → All P es → All P (clone_matching test es)
  unfolding clone_matching
  clone_matching-Named P [] h = tt
  clone_matching-Named P (e ∷ es) (here, rest) = elim (Bool-cases (test e)) [
    | inl passes ↦
        subst (All P) {x = e ∷ clone_matching test es} (ground (arith, passes, clone_event_lem e))
          (here, clone_matching-Named P es rest)
    | inr fails ↦
        subst (All P) {x = clone_matching test es} (ground (arith, fails))
          (clone_matching-Named P es rest)
  ]

  others_apart :
      (e : Event) (es : List Event)
      → elem e.log_index (log_indexes es) ≡ false
      → All (λ y. apart e y ≡ true) es
  others_apart e [] h = tt
  others_apart e (x ∷ es) h = (ground (arith, h), others_apart e es (ground (arith, h)))

  clone_matching-IsApart :
      (es : List Event) → Distinct (log_indexes es) → IsApart (clone_matching test es)
  unfolding clone_matching
  clone_matching-IsApart [] h = tt
  clone_matching-IsApart (e ∷ es) (fresh, rest) = elim (Bool-cases (test e)) [
    | inl passes ↦
        subst IsApart {x = e ∷ clone_matching test es} (ground (arith, passes, clone_event_lem e)) (
          clone_matching-Named (λ y. apart e y ≡ true) es (others_apart e es fresh),
          clone_matching-IsApart es rest,
        )
    | inr fails ↦
        subst IsApart {x = clone_matching test es} (ground (arith, fails))
          (clone_matching-IsApart es rest)
  ]

append-IsApart :
    (xs ys : List Event)
    → IsApart xs
    → IsApart ys
    → All (λ x. All (λ y. apart x y ≡ true) ys) xs
    → IsApart (xs ++ ys)
append-IsApart [] ys h k far = k
append-IsApart (x ∷ xs) ys (first, rest) k (here, far) =
    (All-append (λ y. apart x y ≡ true) xs ys first here, append-IsApart xs ys rest k far)

filter_by-append :
    (test : Event → Bool) (xs ys : List Event)
    → filter_by test (xs ++ ys) ≡ filter_by test xs ++ filter_by test ys
filter_by-append test [] ys = refl
filter_by-append test (x ∷ xs) ys = ground (arith, filter_by-append test xs ys)

clone_matching-narrow :
    (wide also narrow : Event → Bool)
    → ((e : Event) → narrow e ≡ (wide e && also e))
    → (es : List Event) → clone_matching narrow es ≡ filter_by also (clone_matching wide es)
unfolding clone_matching
clone_matching-narrow wide also narrow h [] = refl
clone_matching-narrow wide also narrow h (e ∷ es) =
    ground (arith, h e, clone_event_lem e, clone_matching-narrow wide also narrow h es)

module _ (address : Address) (before : Option EventCursor) where
  abbrev pub asked : Event → Bool
  asked event = event.address == address && event_before_cursor event before

  matching_events-Named :
      (m : BundleMap)
      → All (λ (n, b). IsOwned n b) m
      → All (λ e. elem e.block_number (keys m) ≡ true) (matching_events address before m)
  unfolding matching_events
  matching_events-Named [] h = tt
  matching_events-Named ((k, b) ∷ m) (here, rest) =
      All-append (λ e. elem e.block_number (keys ((k, b) ∷ m)) ≡ true)
        (clone_matching asked b.events) (matching_events address before m)
        (clone_matching-Named asked (λ e. elem e.block_number (keys ((k, b) ∷ m)) ≡ true) b.events
          (All-map (λ e. e.block_number ≡ k) (λ e. elem e.block_number (keys ((k, b) ∷ m)) ≡ true)
            b.events (λ e is. ground (arith, is)) here.named))
        (All-map (λ e. elem e.block_number (keys m) ≡ true)
          (λ e. elem e.block_number (keys ((k, b) ∷ m)) ≡ true) (matching_events address before m)
          (λ e is. ground (arith, is)) (matching_events-Named m rest))

  matching_events-IsApart :
      (m : BundleMap)
      → Distinct (keys m)
      → All (λ (n, b). IsOwned n b) m
      → IsApart (matching_events address before m)
  unfolding matching_events
  matching_events-IsApart [] d h = tt
  matching_events-IsApart ((k, b) ∷ m) (fresh, d) (here, rest) =
      append-IsApart (clone_matching asked b.events) (matching_events address before m)
        (clone_matching-IsApart asked b.events here.distinct) (matching_events-IsApart m d rest)
        (clone_matching-Named asked (λ x. All (λ y. apart x y ≡ true) _) b.events
          (All-map (λ x. x.block_number ≡ k) (λ x. All (λ y. apart x y ≡ true) _) b.events
            (λ x is.
              All-map (λ y. elem y.block_number (keys m) ≡ true) (λ y. apart x y ≡ true)
                (matching_events address before m) (λ y among. apart_of_keys x y is among)
                (matching_events-Named m rest))
            here.named))
    where
      apart_of_keys :
          (x y : Event)
          → x.block_number ≡ k
          → elem y.block_number (keys m) ≡ true
          → apart x y ≡ true
      apart_of_keys x y is among = elim (Bool-cases (x.block_number == y.block_number)) [
        | inl same ↦ absurd (ground (arith, same, is, among, fresh))
        | inr other ↦ ground (arith, other)
      ]

  -- A cursor that lies before the old one leaves out the events between them.
  narrowed :
      (cursor : EventCursor) (m : BundleMap)
      → ((e : Event) → older cursor e ≡ true → event_before_cursor e before ≡ true)
      → matching_events address (some cursor) m
        ≡ filter_by (older cursor) (matching_events address before m)
  unfolding matching_events
  narrowed cursor [] narrow = refl
  narrowed cursor ((k, b) ∷ m) narrow = ground (
    arith,
    clone_matching-narrow asked (older cursor)
        (λ event. event.address == address && event_before_cursor event (some cursor))
        (λ e. ground (arith, narrow e)) b.events,
    narrowed cursor m narrow,
    filter_by-append (older cursor) (clone_matching asked b.events)
        (matching_events address before m),
  )

last_asked :
    (address : Address) (before : Option EventCursor) (n : ℕ) (es : List Event)
    → All (IsAsked address before) es
    → suc n ≤ length es
    → IsAsked address before (last_or zero_event (take (suc n) es))
last_asked address before n [] h enough = absurd (ground (arith, enough))
last_asked address before n (e ∷ es) (here, rest) enough =
    All-last (IsAsked address before) e (take n es) here
      (All-take (IsAsked address before) n es rest)

earlier_still :
    (before : Option EventCursor) (last e : Event)
    → event_before_cursor last before ≡ true
    → older (cursor_at last) e ≡ true
    → event_before_cursor e before ≡ true
unfolding event_before_cursor
earlier_still none last e h k = refl
earlier_still (some cursor) last e h k = ground (arith, h, k)

-- The events before a cursor to the last of the first `suc n` events of a query are the rest of its
-- events, in order: on stored blocks that form a canonical chain, a client that follows the cursors
-- meets every event of the query once.
pub selected_events_resume :
    (address : Address) (before : Option EventCursor) (m : BundleMap) (n : ℕ)
    → Distinct (keys m)
    → IsCanonical m
    → suc n ≤ length (selected_events address before m)
    → selected_events address
        (some (cursor_at (last_or zero_event (take (suc n) (selected_events address before m)))))
        m
      ≡ drop (suc n) (selected_events address before m)
unfolding selected_events
selected_events_resume address before m n d canonical enough =
    let all = selected_events address before m in
    let last = last_or zero_event (take (suc n) all) in
    let asked_last =
      last_asked address before n all (selected_events-IsAsked address before m) enough in
    let strict =
      sort_by-IsStrict (matching_events address before m)
        (matching_events-IsApart address before m d (entries-IsOwned m d canonical.consistent)) in
    ap (sort_by newer) (
      narrowed address before (cursor_at last) m (λ e earlier.
        earlier_still before last e (IsBefore-event_before_cursor before last asked_last.1)
          earlier))
    ∙ sym (filter_by-sort_by (cursor_at last) (matching_events address before m))
    ∙ filter_by-drop zero_event n all strict enough
