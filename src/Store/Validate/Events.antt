-- ===== src/Store/Validate/Events.antt =====
-- What the event loop of `validateCanonicalBundles` establishes.
use ethindexer.Common.{
  ℕ, zero, suc, ◌≤◌, ◌≡◌, List, [], ◌∷◌, some, arith, true, false, get_elem?, length, lookup, elem,
  Distinct,
}
use ethindexer.Failure.{ok}
use ethindexer.Domain.{Hash, Event}
use ethindexer.Store.Validate.{check_events}

abbrev pub log_indexes : List Event → List ℕ
log_indexes [] = []
log_indexes (event ∷ rest) = event.log_index ∷ log_indexes rest

module _ (number : ℕ) (hash : Hash) (positions : List (Hash × ℕ)) where
  -- Each event names its block, has four topics at most, and is at the index of its transaction.
  pub events_owned :
      (events : List Event) (seen : List ℕ) (i : ℕ) (e : Event)
      → check_events number hash positions events seen ≡ ok tt
      → get_elem? events i ≡ some e
      → (e.block_number ≡ number)
        × (e.block_hash ≡ hash)
        × (length e.topics ≤ 4)
        × (lookup e.transaction_hash positions ≡ some e.transaction_index)
  unfolding check_events
  events_owned [] seen i e h at = cc
  events_owned (first ∷ rest) seen zero e h at = ground arith
  events_owned (first ∷ rest) seen (suc i) e h at =
      ground (arith, events_owned rest (first.log_index ∷ seen) i e)

  events_fresh :
      (events : List Event) (seen : List ℕ) (a : ℕ)
      → check_events number hash positions events seen ≡ ok tt
      → elem a (log_indexes events) ≡ true
      → elem a seen ≡ false
  unfolding check_events
  events_fresh [] seen a h e = cc
  events_fresh (first ∷ rest) seen a h e =
      ground (arith, events_fresh rest (first.log_index ∷ seen) a)

  -- No log index stands twice.
  pub events-Distinct :
      (events : List Event) (seen : List ℕ)
      → check_events number hash positions events seen ≡ ok tt
      → Distinct (log_indexes events)
  unfolding check_events
  events-Distinct [] seen h = tt
  events-Distinct (first ∷ rest) seen h = ground (
    arith,
    events_fresh rest (first.log_index ∷ seen) first.log_index,
    events-Distinct rest (first.log_index ∷ seen),
  )
