-- ===== src/Examples/Queries.antt =====
-- Queries on a store with two blocks, one of which has a transaction with an event.
use ethindexer.Common.{
  ℕ, ◌≡◌, inl, refl, [], ◌∷◌, none, some, false, arith, lookup, keys, Distinct, elem,
}
use ethindexer.Failure.{ok, err, not_found}
use ethindexer.Domain.{EventQuery, EventPage, BlockBundle, TransactionResult}
use ethindexer.Store.Validate.{BundleMap, validate_canonical_bundles}
use ethindexer.Store.Validate.Transactions.{hashes}
use ethindexer.Store.Canonical.Chain.{IsCanonical, validate-IsCanonical}
use ethindexer.Store.Memory.Queries.{transaction_by_hash, events_by_address, selected_events}
use ethindexer.Store.Memory.Emitted.{IsEmitted}
use ethindexer.Store.Memory.Lookup.{transaction_by_hash_found, transaction_by_hash_missing}
use ethindexer.Store.Memory.Pages.{IsPage, IsFresh, events_by_address-IsPage}
use ethindexer.Store.Memory.Selection.{IsIn, selected_events_complete}
use ethindexer.Examples.Data.{bundle_of_chain}
use ethindexer.Examples.Ranges.{busy_bundle, mapped_transfer, mapped_log}

abbrev stored : BundleMap
stored = (6, bundle_of_chain 6) ∷ (5, busy_bundle) ∷ []

stored-Distinct : Distinct (keys stored)
stored-Distinct = ground arith

stored_passes : validate_canonical_bundles stored ≡ ok tt
unfolding validate_canonical_bundles ethindexer.Store.Validate.sorted_block_numbers
    ethindexer.Store.Validate.check_bundles ethindexer.Store.Validate.check_bundle
    ethindexer.Store.Validate.check_transactions ethindexer.Store.Validate.check_events
stored_passes = refl

stored-IsCanonical : IsCanonical stored
stored-IsCanonical = validate-IsCanonical stored stored-Distinct stored_passes

transaction_by_hash_found_example :
    (r : TransactionResult) × (transaction_by_hash none 900 stored ≡ ok r)
    × (r.transaction ≡ mapped_transfer)
    × IsEmitted 900 busy_bundle r.events
transaction_by_hash_found_example =
    transaction_by_hash_found stored 5 0 busy_bundle mapped_transfer stored-Distinct
      stored-IsCanonical refl refl

absent :
    (n : ℕ) (b : BlockBundle) → lookup n stored ≡ some b → elem 901 (hashes b.transactions) ≡ false
absent n b at = ground (arith, at)

transaction_by_hash_missing_example : transaction_by_hash none 901 stored ≡ err not_found
transaction_by_hash_missing_example = transaction_by_hash_missing stored 901 stored-Distinct absent

-- The events of address 8 before block 6.
abbrev query : EventQuery
query = record {
  address = 8;
  limit = 10;
  before = some (record { block_number = 6; block_hash = 106; log_index = 0 });
}

abbrev page : EventPage
page = record { events = mapped_log ∷ []; next_cursor = none }

pages : events_by_address none query stored ≡ ok page
unfolding events_by_address ethindexer.Store.Memory.Queries.cut_page selected_events
    ethindexer.Store.Memory.Queries.matching_events ethindexer.Store.Memory.Queries.clone_matching
    ethindexer.Store.Memory.Queries.event_before_cursor ethindexer.Store.Memory.Clone.clone_event
pages = refl

events_by_address-IsPage_example : IsPage query stored page × IsFresh query.before stored
events_by_address-IsPage_example = events_by_address-IsPage none query stored page pages

selected_events_complete_example : IsIn mapped_log (selected_events 8 query.before stored)
selected_events_complete_example =
    selected_events_complete 8 query.before stored 5 0 busy_bundle mapped_log refl refl refl
      (inl (omega arith))
