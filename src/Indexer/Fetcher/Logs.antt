-- ===== src/Indexer/Fetcher/Logs.antt =====
-- What `mapEvents` returns.
use ethindexer.Common.{
  ℕ, ◌%◌, ◌≤◌, ◌≡◌, refl, List, [], ◌∷◌, some, arith, true, false, ◌||◌, inl, inr, length, lookup,
  elem, Distinct, ◌==◌, All, All-sort_by, place, sort_by,
}
use ethindexer.Failure.{ok, Result-cases}
use ethindexer.Domain.{Hash, Event, uint32_size}
use ethindexer.Ethereum.{RawLog}
use ethindexer.Store.Validate.Events.{log_indexes}
use ethindexer.Store.Memory.Queries.{earlier_log}
use ethindexer.Indexer.Fetcher.{map_event, map_logs, map_events}

elem-log_indexes-place :
    (a : ℕ) (e : Event) (events : List Event)
    → elem a (log_indexes (place earlier_log e events))
      ≡ ((a == e.log_index) || elem a (log_indexes events))
elem-log_indexes-place a e [] = refl
elem-log_indexes-place a e (first ∷ rest) = ground (arith, elem-log_indexes-place a e rest)

place-Distinct :
    (e : Event) (events : List Event)
    → elem e.log_index (log_indexes events) ≡ false
    → Distinct (log_indexes events)
    → Distinct (log_indexes (place earlier_log e events))
place-Distinct e [] h d = (refl, tt)
place-Distinct e (first ∷ rest) h d =
    ground (arith, place-Distinct e rest, elem-log_indexes-place first.log_index e rest)

elem-log_indexes-sort_by :
    (a : ℕ) (events : List Event)
    → elem a (log_indexes (sort_by earlier_log events)) ≡ elem a (log_indexes events)
elem-log_indexes-sort_by a [] = refl
elem-log_indexes-sort_by a (first ∷ rest) = ground (
  arith,
  elem-log_indexes-place a first (sort_by earlier_log rest),
  elem-log_indexes-sort_by a rest,
)

-- Sorting keeps the log indexes apart.
pub sort_by-Distinct :
    (events : List Event)
    → Distinct (log_indexes events)
    → Distinct (log_indexes (sort_by earlier_log events))
sort_by-Distinct [] d = tt
sort_by-Distinct (first ∷ rest) d = ground (
  arith,
  place-Distinct first (sort_by earlier_log rest),
  elem-log_indexes-sort_by first.log_index rest,
  sort_by-Distinct rest,
)

module _ (number : ℕ) (hash : Hash) (positions : List (Hash × ℕ)) where
  -- An event of the block, with four topics at most, at the index of its transaction.
  abbrev pub IsOwned : Event → Type 0
  IsOwned e =
      (e.block_number ≡ number)
      × (e.block_hash ≡ hash)
      × (length e.topics ≤ 4)
      × (lookup e.transaction_hash positions ≡ some e.transaction_index)

  record Mapped (log : RawLog) (rest : List RawLog) (seen : List ℕ) (events : List Event)
      : Type 0 where
    more : List Event
    rest_ok : map_logs number hash positions rest ((log.index % uint32_size) ∷ seen) ≡ ok more
    is_events : events ≡ map_event number hash positions log ∷ more
    owned : IsOwned (map_event number hash positions log)
    unseen : elem (log.index % uint32_size) seen ≡ false

  map_logs_step :
      (log : RawLog) (rest : List RawLog) (seen : List ℕ) (events : List Event)
      → map_logs number hash positions (log ∷ rest) seen ≡ ok events
      → Mapped log rest seen events
  unfolding map_logs
  map_logs_step log rest seen events h =
      elim (Result-cases (map_logs number hash positions rest ((log.index % uint32_size) ∷ seen))) [
        | inr (x, r) ↦ absurd (ground arith)
        | inl (more, r) ↦ record {
          more = more;
          rest_ok = r;
          is_events = ground arith;
          owned = ground arith;
          unseen = ground arith;
        }
      ]

  map_logs-IsOwned :
      (logs : List RawLog) (seen : List ℕ) (events : List Event)
      → map_logs number hash positions logs seen ≡ ok events
      → All IsOwned events
  map_logs-IsOwned [] seen events h =
      let is_empty : events ≡ [] = unfold map_logs in ground arith in rw is_empty tt
  map_logs-IsOwned (log ∷ rest) seen events h =
      let step = map_logs_step log rest seen events h in
      rw step.is_events (step.owned, map_logs-IsOwned rest _ step.more step.rest_ok)

  map_logs_fresh :
      (logs : List RawLog) (seen : List ℕ) (events : List Event) (a : ℕ)
      → map_logs number hash positions logs seen ≡ ok events
      → elem a (log_indexes events) ≡ true
      → elem a seen ≡ false
  map_logs_fresh [] seen events a h e = unfold map_logs in absurd (ground arith)
  map_logs_fresh (log ∷ rest) seen events a h e =
      let step = map_logs_step log rest seen events h in
      let there : elem a (log_indexes (map_event number hash positions log ∷ step.more)) ≡ true =
        rw step.is_events at e in
      ground (
        arith,
        there,
        step.unseen,
        map_logs_fresh rest ((log.index % uint32_size) ∷ seen) step.more a step.rest_ok,
      )

  map_logs-Distinct :
      (logs : List RawLog) (seen : List ℕ) (events : List Event)
      → map_logs number hash positions logs seen ≡ ok events
      → Distinct (log_indexes events)
  map_logs-Distinct [] seen events h =
      let is_empty : events ≡ [] = unfold map_logs in ground arith in rw is_empty tt
  map_logs-Distinct (log ∷ rest) seen events h =
      let step = map_logs_step log rest seen events h in
      let fresh =
        map_logs_fresh rest ((log.index % uint32_size) ∷ seen) step.more (log.index % uint32_size)
          step.rest_ok in
      rw step.is_events (ground (arith, fresh), map_logs-Distinct rest _ step.more step.rest_ok)

  -- The events that `mapEvents` returns belong to the block, with no log index twice.
  pub map_events_lem :
      (logs : List RawLog) (events : List Event)
      → map_events number hash positions logs ≡ ok events
      → All IsOwned events × Distinct (log_indexes events)
  unfolding map_events
  map_events_lem logs events h = elim (Result-cases (map_logs number hash positions logs [])) [
    | inr (x, e) ↦ absurd (ground arith)
    | inl (mapped, e) ↦
        let sorted : events ≡ sort_by earlier_log mapped = ground arith in
        rw sorted (
          All-sort_by IsOwned earlier_log mapped (map_logs-IsOwned logs [] mapped e),
          sort_by-Distinct mapped (map_logs-Distinct logs [] mapped e),
        )
  ]
