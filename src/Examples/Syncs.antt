-- ===== src/Examples/Syncs.antt =====
-- A synchronization that replaces the fork, and its parts.
use ethindexer.Common.{ℕ, ◌+◌, ◌-◌, ◌≤◌, ◌<◌, ◌≡◌, ◌≢◌, ◌⊎◌, refl, none, some, lookup, arith, subst}
use ethindexer.Failure.{ok}
use ethindexer.Domain.{Hash, ChainTip}
use ethindexer.Store.Validate.{validate_replacement, validate_canonical_bundles}
use ethindexer.Store.Validate.Replacement.{
  IsNumbered, validate_replacement-IsNumbered, validate_replacement_accepts,
}
use ethindexer.Store.Memory.{Memory, canonical_tip, apply_canonical_update}
use ethindexer.Store.Memory.Interface.{memory_store}
use ethindexer.Store.Memory.Tip.{canonical_tip-highest}
use ethindexer.Store.Memory.Update.{IsMap, lookup-apply}
use ethindexer.Store.Canonical.Chain.{IsCanonical, validate-IsCanonical}
use ethindexer.Indexer.Syncer.{SyncResult, reorg, ReplacementPlan, window_start}
use ethindexer.Indexer.Syncer.Window.{window_start_exact}
use ethindexer.Indexer.Plan.{stored_hash, chain_hash, common_ancestor, replacement_start}
use ethindexer.Indexer.Plan.Ancestor.{IsKnown, common_ancestor_highest}
use ethindexer.Indexer.Plan.Bounds.{IsSound, replacement_start-IsSound}
use ethindexer.Indexer.Once.{sync_once}
use ethindexer.Indexer.Once.Window.{IsWindow, sync_once-IsWindow}
use ethindexer.Examples.Data.{
  syncer, alive_readings, forked, forked_tip, head, reorg_update, quiet_chain, bundle_with,
  bundle_of_chain, bundles_from,
}

abbrev result : SyncResult
result = record {
  head = head;
  stored_tip = some forked_tip;
  mode = reorg;
  from_block = 2;
  replace_from = 3;
  block_count = 2;
  transaction_count = 0;
  event_count = 0;
  synced_at = 77;
  reorg = some (record {
    common_ancestor = some (record { number = 2; hash = 102 });
    replaced_from = 3;
    replaced_to = 3;
    replaced_block_count = 1;
  });
}

forked-IsMap : IsMap forked
forked-IsMap = ground arith

syncs : (sync_once syncer forked).1 ≡ ok result
unfolding ethindexer.Indexer.Once.sync_once ethindexer.Indexer.Once.validate_sync_once_config
    ethindexer.Indexer.Once.sync_given ethindexer.Indexer.Once.sync_with
    ethindexer.Indexer.Once.prepare ethindexer.Indexer.Syncer.selected_head
    ethindexer.Indexer.Syncer.valid_header_number canonical_tip
    ethindexer.Indexer.Plan.replacement_start ethindexer.Store.Memory.highest_bundle
    ethindexer.Store.Memory.highest_from window_start ethindexer.Indexer.Plan.common_ancestor
    ethindexer.Indexer.Plan.ancestor_loop ethindexer.Indexer.Plan.compare_at
    ethindexer.Indexer.Plan.stored_hash ethindexer.Indexer.Plan.chain_hash
    ethindexer.Store.Memory.canonical_hash ethindexer.Failure.matches
    ethindexer.Indexer.Once.count_events ethindexer.Indexer.Once.count_transactions
    ethindexer.Indexer.Once.fetch_to_head apply_canonical_update
    ethindexer.Store.Memory.check_update ethindexer.Store.Validate.validate_replacement
    ethindexer.Store.Validate.check_replacement ethindexer.Store.Validate.check_contiguous
    ethindexer.Store.Memory.candidate_of ethindexer.Store.Memory.store_blocks
    ethindexer.Store.Memory.Clone.clone_bundle ethindexer.Store.Memory.Clone.clone_bundles
    ethindexer.Store.Validate.validate_canonical_bundles
    ethindexer.Store.Validate.sorted_block_numbers ethindexer.Store.Validate.check_bundles
    ethindexer.Store.Validate.check_bundle ethindexer.Store.Validate.check_transactions
    ethindexer.Store.Validate.check_events
syncs = refl

sync_once-IsWindow_example : IsWindow 2 head (sync_once syncer forked).0 × (2 ≤ 4) × (4 - 2 + 1 ≤ 3)
sync_once-IsWindow_example =
    sync_once-IsWindow syncer alive_readings forked result refl forked-IsMap syncs

applies : (apply_canonical_update none reorg_update forked).1 ≡ none
unfolding apply_canonical_update ethindexer.Store.Memory.check_update
    ethindexer.Store.Validate.validate_replacement ethindexer.Store.Validate.check_replacement
    ethindexer.Store.Validate.check_contiguous ethindexer.Store.Memory.candidate_of
    ethindexer.Store.Memory.store_blocks ethindexer.Store.Memory.Clone.clone_bundle
    ethindexer.Store.Memory.Clone.clone_bundles ethindexer.Store.Validate.validate_canonical_bundles
    ethindexer.Store.Validate.sorted_block_numbers ethindexer.Store.Validate.check_bundles
    ethindexer.Store.Validate.check_bundle ethindexer.Store.Validate.check_transactions
    ethindexer.Store.Validate.check_events
applies = refl

lookup-apply_example :
    lookup 3 (apply_canonical_update none reorg_update forked).0.bundles ≡ some (bundle_of_chain 3)
lookup-apply_example = lookup-apply none reorg_update forked (omega arith) applies 3

replacement_passes : validate_replacement reorg_update ≡ ok tt
unfolding validate_replacement ethindexer.Store.Validate.check_replacement
    ethindexer.Store.Validate.check_contiguous
replacement_passes = refl

validate_replacement-IsNumbered_example : IsNumbered 3 (bundles_from 3 2)
validate_replacement-IsNumbered_example =
    validate_replacement-IsNumbered reorg_update (omega arith) replacement_passes

forked_passes : validate_canonical_bundles forked.bundles ≡ ok tt
unfolding validate_canonical_bundles ethindexer.Store.Validate.sorted_block_numbers
    ethindexer.Store.Validate.check_bundles ethindexer.Store.Validate.check_bundle
    ethindexer.Store.Validate.check_transactions ethindexer.Store.Validate.check_events
forked_passes = refl

validate-IsCanonical_example : IsCanonical forked.bundles
validate-IsCanonical_example = validate-IsCanonical forked.bundles forked-IsMap forked_passes

canonical_tip-highest_example : canonical_tip none forked ≡ ok (some forked_tip)
canonical_tip-highest_example =
    canonical_tip-highest forked 3 (bundle_with 3 203 102) refl (λ k h. ground (arith, h))

tip_found : canonical_tip none forked ≡ ok (some forked_tip)
unfolding canonical_tip ethindexer.Store.Memory.highest_bundle ethindexer.Store.Memory.highest_from
tip_found = refl

window_start_exact_example :
    (window_start 4 3 ≤ 4)
    × (4 - window_start 4 3 + 1 ≤ 3)
    × ((4 + 1 ≡ window_start 4 3 + 3) ⊎ ((window_start 4 3 ≡ 0) × (4 + 1 < 3)))
window_start_exact_example = window_start_exact 4 3 (omega arith) (omega arith) (omega arith)

stored_two : stored_hash (memory_store alive_readings) forked quiet_chain forked_tip 2 ≡ ok 102
unfolding stored_hash ethindexer.Store.Memory.canonical_hash
stored_two = refl

stored_three : stored_hash (memory_store alive_readings) forked quiet_chain forked_tip 3 ≡ ok 203
unfolding stored_hash
stored_three = refl

chain_two : chain_hash quiet_chain head 2 ≡ ok 102
unfolding chain_hash ethindexer.Indexer.Syncer.valid_header_number
chain_two = refl

chain_three : chain_hash quiet_chain head 3 ≡ ok 103
unfolding chain_hash ethindexer.Indexer.Syncer.valid_header_number
chain_three = refl

known :
    (k : ℕ)
    → 2 < k
    → k ≤ 3
    → IsKnown (memory_store alive_readings) forked quiet_chain forked_tip head k
known k above below =
    subst (IsKnown (memory_store alive_readings) forked quiet_chain forked_tip head) {x = 3}
      (omega (arith, above, below)) (203, 103, stored_three, chain_three)

common_ancestor_highest_example :
    (tip : ChainTip) × (common_ancestor
        (memory_store alive_readings)
        forked
        quiet_chain
        forked_tip
        head
        2
      ≡ ok (some tip))
    × (2 ≤ tip.number)
    × (tip.number ≤ 3)
    × (stored_hash (memory_store alive_readings) forked quiet_chain forked_tip tip.number
        ≡ ok tip.hash)
    × (chain_hash quiet_chain head tip.number ≡ ok tip.hash)
    × ((k : ℕ)
        → tip.number < k
        → k ≤ 3
        → (a b : Hash)
        → stored_hash (memory_store alive_readings) forked quiet_chain forked_tip k ≡ ok a
        → chain_hash quiet_chain head k ≡ ok b
        → a ≢ b)
common_ancestor_highest_example =
    common_ancestor_highest (memory_store alive_readings) forked quiet_chain forked_tip head 2 2 102
      (omega arith) (omega arith) (omega arith) stored_two chain_two known

abbrev plan : ReplacementPlan
plan = record { from = 3; mode = reorg; reorg = result.reorg }

plan_found :
    replacement_start (memory_store alive_readings) forked quiet_chain (some forked_tip) head 2
    ≡ ok plan
unfolding replacement_start common_ancestor ethindexer.Indexer.Plan.ancestor_loop
    ethindexer.Indexer.Plan.compare_at stored_hash chain_hash ethindexer.Store.Memory.canonical_hash
    ethindexer.Failure.matches ethindexer.Indexer.Syncer.valid_header_number
plan_found = refl

replacement_start-IsSound_example :
    IsSound (memory_store alive_readings) forked quiet_chain head (some forked_tip) 2 plan
replacement_start-IsSound_example =
    replacement_start-IsSound (memory_store alive_readings) forked quiet_chain head
      (some forked_tip) 2 plan (omega arith) (omega arith) plan_found

validate_replacement_accepts_example : validate_replacement reorg_update ≡ ok tt
validate_replacement_accepts_example =
    validate_replacement_accepts reorg_update (omega arith) (refl, (refl, tt))
