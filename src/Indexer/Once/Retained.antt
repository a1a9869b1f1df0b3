-- ===== src/Indexer/Once/Retained.antt =====
-- What the store holds after a synchronization.
use ethindexer.Common.{
  ℕ, ◌+◌, ◌-◌, ◌≤◌, ◌<◌, ◌≡◌, List, Option, arith, refl, subst, length, last_or,
}
use ethindexer.Failure.{ok, ok_inj, >>=-eq-ok}
use ethindexer.Domain.{Time, BlockBundle, ChainTip, CanonicalUpdate, uint64_size}
use ethindexer.Ethereum.{Header, Reader}
use ethindexer.Store.{IndexStore}
use ethindexer.Store.Validate.{zero_bundle}
use ethindexer.Indexer.Syncer.{
  selected_head, Config, RangeFetcher, SyncResult, ReplacementPlan, window_start,
  valid_header_number,
}
use ethindexer.Indexer.Plan.{replacement_start}
use ethindexer.Indexer.Once.{prepare, fetch_to_head, update_of, result_of}

valid_number_small : (header : Header) (n : ℕ) → valid_header_number header ≡ ok n → n < uint64_size
unfolding valid_header_number
valid_number_small header n h = ground arith

-- The blocks of a prepared update: none if the range is empty, and else all of it up to the head.
pub record IsRangeTo (from : ℕ) (head : ChainTip) (blocks : List BlockBundle) : Type 0 where
  pub size : length blocks ≡ head.number + 1 - from
  pub ends : from ≤ head.number → (last_or zero_bundle blocks).block.hash ≡ head.hash

fetch_to_head_lem :
    (fetcher : RangeFetcher) (config : Config) (from : ℕ) (head : ChainTip)
    (blocks : List BlockBundle)
    → head.number < uint64_size
    → fetch_to_head fetcher config from head ≡ ok blocks
    → IsRangeTo from head blocks
unfolding fetch_to_head
fetch_to_head_lem fetcher config from head blocks small h = record {
  size =
      ground
        (arith, fetcher.fetch_range_numbered from head.number config.rpc_concurrency blocks small);
  ends = λ le. ground arith;
}

-- The parts of a prepared update and its result.
pub record IsPrepared {S : Type 0} (config : Config) (chain : Reader) (store : IndexStore S)
    (state : S) (update : CanonicalUpdate) (result : SyncResult) : Type 0 where
  pub plan : ReplacementPlan
  pub small : result.head.number < uint64_size
  pub retains : update.retain_from ≡ window_start result.head.number config.block_window
  pub window : result.from_block ≡ update.retain_from
  pub stored : store.canonical_tip state ≡ ok result.stored_tip
  pub planned :
      replacement_start store state chain result.stored_tip result.head update.retain_from ≡ ok plan
  pub replaces : update.replace_from ≡ plan.from
  pub fetched : IsRangeTo plan.from result.head update.blocks

assembled :
    {S : Type 0} (config : Config) (now : Time) (fetcher : RangeFetcher) (chain : Reader)
    (store : IndexStore S) (state : S) (head : ChainTip) (stored_tip : Option ChainTip)
    (plan : ReplacementPlan) (bundles : List BlockBundle)
    → head.number < uint64_size
    → store.canonical_tip state ≡ ok stored_tip
    → replacement_start store state chain stored_tip head
        (window_start head.number config.block_window)
      ≡ ok plan
    → fetch_to_head fetcher config plan.from head ≡ ok bundles
    → IsPrepared config chain store state
        (update_of config (window_start head.number config.block_window) now plan bundles)
        (result_of head stored_tip (window_start head.number config.block_window) now plan bundles)
assembled config now fetcher chain store state head stored_tip plan bundles small stored planned
      fetched =
    record {
      plan = plan;
      small = small;
      retains = refl;
      window = refl;
      stored = stored;
      planned = planned;
      replaces = refl;
      fetched = fetch_to_head_lem fetcher config plan.from head bundles small fetched;
    }

pub prepare-IsPrepared :
    {S : Type 0} (config : Config) (now : Time) (fetcher : RangeFetcher) (chain : Reader)
    (store : IndexStore S) (state : S) (update : CanonicalUpdate) (result : SyncResult)
    → prepare config now fetcher chain store state ≡ ok (update, result)
    → IsPrepared config chain store state update result
unfolding prepare
prepare-IsPrepared config now fetcher chain store state update result h =
    let (header, _, h₁) = >>=-eq-ok (selected_head config.head_mode chain) _ h in
    let (number, valid, h₂) = >>=-eq-ok (valid_header_number header) _ h₁ in
    let head : ChainTip = record { number = number; hash = header.hash } in
    let retain_from = window_start number config.block_window in
    let (stored_tip, stored, h₃) = >>=-eq-ok (store.canonical_tip state) _ h₂ in
    let (plan, planned, h₄) =
      >>=-eq-ok (replacement_start store state chain stored_tip head retain_from) _ h₃ in
    let (bundles, fetched, h₅) = >>=-eq-ok (fetch_to_head fetcher config plan.from head) _ h₄ in
    subst (λ p. IsPrepared config chain store state p.0 p.1)
      (ok_inj
        (
          update_of config retain_from now plan bundles,
          result_of head stored_tip retain_from now plan bundles,
        )
        (update, result) h₅)
      (assembled config now fetcher chain store state head stored_tip plan bundles
        (valid_number_small header number valid) stored planned fetched)
