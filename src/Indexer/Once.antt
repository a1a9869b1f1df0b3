-- ===== src/Indexer/Once.antt =====
-- internal/indexer/syncer.go: `SyncOnce` and its check of the configuration.
pub mod Retained
pub mod Window
use ethindexer.Common.{
  ℕ, zero, suc, ◌+◌, List, [], ◌∷◌, Option, none, some, Bool, true, false, not, ◌&&◌, ltb, leb,
  ◌==◌, if◌then◌else◌, length, last_or, pos, leb_ℤ,
}
use ethindexer.Failure.{
  Error, Result, ok, err, ◌>>=◌, ◌>>◌, guard, invalid_sync_config, invalid_sync_dependency,
  head_changed,
}
use ethindexer.Domain.{
  Time, BlockBundle, ChainTip, CanonicalUpdate, HeadMode, latest, safe, finalized, other,
  max_block_window,
}
use ethindexer.Ethereum.{Header, Reader}
use ethindexer.Store.{IndexStore}
use ethindexer.Store.Validate.{zero_bundle}
use ethindexer.Indexer.Syncer.{
  Config, RangeFetcher, Syncer, SyncResult, ReplacementPlan, to_uint64, selected_head,
  valid_header_number, window_start,
}
use ethindexer.Indexer.Plan.{replacement_start}

abbrev is_given {ℓ} : {A : Type ℓ} → Option A → Bool
is_given none = false
is_given (some _) = true

-- A fetcher's chain ID against the configured one.
abbrev same_chain : Option RangeFetcher → ℕ → Bool
same_chain none chain_id = false
same_chain (some fetcher) chain_id = is_chain (to_uint64 fetcher.chain_id)
  where
    is_chain : Option ℕ → Bool
    is_chain none = false
    is_chain (some id) = id == chain_id

abbrev pub is_known_mode : HeadMode → Bool
is_known_mode other = false
is_known_mode _ = true

unfoldable pub validate_sync_once_config : {S : Type 0} → Syncer S → Result (Unit {0})
validate_sync_once_config s = do
  guard (is_given s.fetcher) invalid_sync_dependency
  guard (is_given s.chain) invalid_sync_dependency
  guard (is_given s.store) invalid_sync_dependency
  guard (not (s.config.chain_id == 0)) invalid_sync_config
  guard (same_chain s.fetcher s.config.chain_id) invalid_sync_dependency
  guard (not (s.config.block_window == 0) && leb s.config.block_window max_block_window)
      invalid_sync_config
  guard (leb_ℤ (pos 1) s.config.rpc_concurrency) invalid_sync_config
  guard (is_known_mode s.config.head_mode) invalid_sync_config

-- `result.TransactionCount += len(bundle.Transactions)` over the bundles, and so the events.
unfoldable pub count_transactions : List BlockBundle → ℕ
count_transactions [] = 0
count_transactions (bundle ∷ rest) = length bundle.transactions + count_transactions rest

unfoldable pub count_events : List BlockBundle → ℕ
count_events [] = 0
count_events (bundle ∷ rest) = length bundle.events + count_events rest

-- The range up to the head, whose last block must be the head that was selected.
unfoldable pub fetch_to_head : RangeFetcher → Config → ℕ → ChainTip → Result (List BlockBundle)
fetch_to_head fetcher config replace_from head =
    if leb replace_from head.number
    then (do
      bundles ← fetcher.fetch_range replace_from head.number config.rpc_concurrency
      guard ((last_or zero_bundle bundles).block.hash == head.hash) head_changed
      ok bundles)
    else ok []

abbrev pub result_of :
    ChainTip → Option ChainTip → ℕ → Time → ReplacementPlan → List BlockBundle → SyncResult
result_of head stored_tip retain_from now plan bundles = record {
  head = head;
  stored_tip = stored_tip;
  mode = plan.mode;
  from_block = retain_from;
  replace_from = plan.from;
  block_count = length bundles;
  transaction_count = count_transactions bundles;
  event_count = count_events bundles;
  synced_at = now;
  reorg = plan.reorg;
}

abbrev pub update_of : Config → ℕ → Time → ReplacementPlan → List BlockBundle → CanonicalUpdate
update_of config retain_from now plan bundles = record {
  chain_id = config.chain_id;
  replace_from = plan.from;
  retain_from = retain_from;
  blocks = bundles;
  synced_at = now;
}

module _ {S : Type 0} (config : Config) (now : Time) where
  -- What `SyncOnce` does before it writes: the update, and the result if the write succeeds.
  unfoldable pub prepare :
      RangeFetcher → Reader → IndexStore S → S → Result (CanonicalUpdate × SyncResult)
  prepare fetcher chain store state = do
    header ← selected_head config.head_mode chain
    head_number ← valid_header_number header
    let head : ChainTip = record { number = head_number; hash = header.hash }
    let retain_from = window_start head_number config.block_window
    stored_tip ← store.canonical_tip state
    plan ← replacement_start store state chain stored_tip head retain_from
    bundles ← fetch_to_head fetcher config plan.from head
    ok (
      update_of config retain_from now plan bundles,
      result_of head stored_tip retain_from now plan bundles,
    )

  abbrev pub written : S × Option Error → SyncResult → S × Result SyncResult
  written (state, some e) result = (state, err e)
  written (state, none) result = (state, ok result)

  unfoldable pub sync_with : RangeFetcher → Reader → IndexStore S → S → S × Result SyncResult
  sync_with fetcher chain store state = elim (prepare fetcher chain store state) [
    | err e ↦ (state, err e)
    | ok (update, result) ↦ written (store.apply_canonical_update update state) result
  ]

  -- The check before has refused every missing dependency.
  unfoldable pub sync_given :
      Option RangeFetcher → Option Reader → Option (IndexStore S) → S → S × Result SyncResult
  sync_given (some fetcher) (some chain) (some store) state = sync_with fetcher chain store state
  sync_given _ _ _ state = (state, err invalid_sync_dependency)

unfoldable pub sync_once : {S : Type 0} → Syncer S → S → S × Result SyncResult
sync_once s state = elim (validate_sync_once_config s) [
  | err e ↦ (state, err e)
  | ok _ ↦ sync_given s.config s.now s.fetcher s.chain s.store state
]
