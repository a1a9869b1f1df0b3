-- ===== src/Examples/Ranges.antt =====
-- Runs of `FetchRange` with two workers, and the fetch of a block with a transaction.
use ethindexer.Common.{
  ℕ, ◌+◌, ◌*◌, ◌≤◌, ◌≡◌, refl, List, [], ◌∷◌, ◌++◌, none, some, true, false, replicate, pos, arith,
}
use ethindexer.Failure.{Result, ok}
use ethindexer.Domain.{BlockBundle, Transaction, Event}
use ethindexer.Store.Validate.{zero_bundle}
use ethindexer.Store.Canonical.Bundle.{IsConsistent}
use ethindexer.Indexer.Fetcher.{Fetcher, fetch_block}
use ethindexer.Indexer.Fetcher.Bundle.{fetch_block-IsConsistent}
use ethindexer.Indexer.Ranger.{
  Pool, fetching, Action, hand, finish, quit, close, run, start, fetch_range, worker_count,
}
use ethindexer.Indexer.Ranger.Completion.{fetch_range_completes, fetch_range_bounded}
use ethindexer.Indexer.Ranger.Linked.{fetch_range_succeeds}
use ethindexer.Examples.Data.{quiet_fetcher, busy_fetcher, bundle_of_chain, bundles_from}

abbrev pub mapped_transfer : Transaction
mapped_transfer = record {
  hash = 900;
  block_number = 5;
  block_hash = 105;
  index = 0;
  kind = 2;
  nonce = 0;
  sender = 7;
  recipient = some 8;
  value = some (pos 5);
  gas_limit = 21_000;
  gas_price = none;
  max_fee_per_gas = some (pos 3);
  max_priority_fee_per_gas = some (pos 1);
  input = [];
}

abbrev pub mapped_log : Event
mapped_log = record {
  block_number = 5;
  block_hash = 105;
  transaction_hash = 900;
  transaction_index = 0;
  log_index = 3;
  address = 8;
  topics = 1 ∷ 2 ∷ [];
  payload = [];
}

abbrev pub busy_bundle : BlockBundle
busy_bundle = record {
  block = record (bundle_of_chain 5).block { transaction_count = pos 1 };
  transactions = mapped_transfer ∷ [];
  events = mapped_log ∷ [];
}

fetches_busy : fetch_block busy_fetcher 5 ≡ ok busy_bundle
unfolding fetch_block ethindexer.Indexer.Fetcher.validate_block_number
    ethindexer.Indexer.Fetcher.map_transactions ethindexer.Indexer.Fetcher.map_from
    ethindexer.Indexer.Fetcher.map_events ethindexer.Indexer.Fetcher.map_logs
    ethindexer.Indexer.Fetcher.map_transaction
fetches_busy = refl

fetch_block-IsConsistent_example : IsConsistent 5 busy_bundle
fetch_block-IsConsistent_example = fetch_block-IsConsistent busy_fetcher 5 busy_bundle fetches_busy

-- Two workers fetch the blocks 5, 6 and 7; the second one finishes first.
abbrev actions : List Action
actions = hand 0 ∷ hand 1 ∷ finish 1 ∷ finish 0 ∷ hand 0 ∷ close ∷ quit 1 ∷ finish 0 ∷ quit 0 ∷ []

returns : fetch_range quiet_fetcher 5 7 (pos 2) actions ≡ some (ok (bundles_from 5 3))
unfolding fetch_range run ethindexer.Indexer.Ranger.step start fetch_block
    ethindexer.Indexer.Fetcher.validate_block_number ethindexer.Indexer.Fetcher.map_transactions
    ethindexer.Indexer.Fetcher.map_from ethindexer.Indexer.Fetcher.map_events
    ethindexer.Indexer.Fetcher.map_logs ethindexer.Indexer.Ranger.outcome
    ethindexer.Indexer.Ranger.validate_fetched_bundles
returns = refl

-- The first two actions, and the pool after them.
abbrev two_hands : List Action
two_hands = hand 0 ∷ hand 1 ∷ []

abbrev pool : Pool
pool = record {
  next = 2;
  producing = true;
  workers = fetching 0 5 ∷ fetching 1 6 ∷ [];
  bundles = replicate 3 zero_bundle;
  failure = none;
  cancelled = false;
  parent = none;
}

hands : run quiet_fetcher 5 3 two_hands (start (pos 2) 3) ≡ some pool
unfolding run ethindexer.Indexer.Ranger.step start
hands = refl

fetch_range_completes_example :
    (after : List Action) × (r : Result (List BlockBundle)) × (fetch_range quiet_fetcher 5 7
        (pos 2)
        (two_hands ++ after)
      ≡ some r)
fetch_range_completes_example =
    fetch_range_completes quiet_fetcher 5 7 (pos 2) two_hands pool (omega arith) (omega arith)
      (omega arith) hands

fetch_range_bounded_example : 2 ≤ 2 * 3 + worker_count (pos 2) 3 + 2
fetch_range_bounded_example = fetch_range_bounded quiet_fetcher 5 7 (pos 2) two_hands pool hands

quiet_fetches : (n : ℕ) → 5 ≤ n → n ≤ 7 → (b : BlockBundle) × (fetch_block quiet_fetcher n ≡ ok b)
unfolding fetch_block ethindexer.Indexer.Fetcher.validate_block_number
    ethindexer.Indexer.Fetcher.map_transactions ethindexer.Indexer.Fetcher.map_from
    ethindexer.Indexer.Fetcher.map_events ethindexer.Indexer.Fetcher.map_logs
quiet_fetches n low high = (bundle_of_chain n, ground arith)

quiet_links :
    (n : ℕ) (a b : BlockBundle)
    → fetch_block quiet_fetcher n ≡ ok a
    → fetch_block quiet_fetcher (n + 1) ≡ ok b
    → b.block.parent_hash ≡ a.block.hash
unfolding fetch_block ethindexer.Indexer.Fetcher.validate_block_number
    ethindexer.Indexer.Fetcher.map_transactions ethindexer.Indexer.Fetcher.map_from
    ethindexer.Indexer.Fetcher.map_events ethindexer.Indexer.Fetcher.map_logs
quiet_links n a b ha hb = ground (arith, ha, hb)

fetch_range_succeeds_example : (bundles : List BlockBundle) × (ok (bundles_from 5 3) ≡ ok bundles)
fetch_range_succeeds_example =
    fetch_range_succeeds quiet_fetcher 5 7 (pos 2) actions (ok (bundles_from 5 3)) (omega arith)
      (omega arith) (omega arith) quiet_fetches quiet_links refl returns
