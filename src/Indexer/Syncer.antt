-- ===== src/Indexer/Syncer.antt =====
-- internal/indexer/syncer.go: the records of the syncer, the retained window and the selected head.
-- The store is any `IndexStore`; `FetchRange` is any function that keeps `RangeFetcher`'s law.
pub mod Window
use ethindexer.Common.{
  ℕ, zero, suc, ◌+◌, ◌-◌, ◌%◌, ◌≤◌, ◌<◌, ◌≡◌, List, [], ◌∷◌, Option, none, some, Bool, true, false,
  not, ◌&&◌, ◌||◌, ltb, leb, ◌==◌, if◌then◌else◌, length, last_or, ℤ, pos, negsuc, leb_ℤ, ltb_ℤ,
}
use Prim.Native.Nat.{min}
use ethindexer.Failure.{
  Error, Result, ok, err, ◌>>=◌, ◌>>◌, guard, matches, not_found, inconsistent_block_data,
  invalid_sync_config, invalid_sync_dependency, head_changed,
}
use ethindexer.Domain.{
  Hash, Time, BigInt, BlockBundle, ChainTip, CanonicalUpdate, HeadMode, latest, safe, finalized,
  other, max_block_window, uint64_size,
}
use ethindexer.Ethereum.{Header, Reader}
use ethindexer.Store.{IndexStore}
use ethindexer.Store.Validate.{zero_bundle}
use ethindexer.Store.Validate.Replacement.{IsNumbered}

pub record Config : Type 0 where
  pub chain_id : ℕ  -- uint64
  pub poll_interval : ℤ  -- time.Duration
  pub block_window : ℕ  -- uint64
  pub head_mode : HeadMode
  pub rpc_timeout : ℤ  -- time.Duration
  pub rpc_concurrency : ℤ  -- int
  pub retry_attempts : ℤ  -- int
  pub retry_min_backoff : ℤ  -- time.Duration
  pub retry_max_backoff : ℤ  -- time.Duration

-- What the syncer uses of a `Fetcher`: its chain ID and `FetchRange`, with the promise that a range
-- which is returned is complete and numbered.
pub record RangeFetcher : Type 0 where
  pub chain_id : BigInt
  pub fetch_range : ℕ → ℕ → ℤ → Result (List BlockBundle)
  pub fetch_range_numbered :
      (from to : ℕ) (concurrency : ℤ) (bundles : List BlockBundle)
      → to < uint64_size
      → fetch_range from to concurrency ≡ ok bundles
      → (from ≤ to) × (length bundles ≡ to - from + 1) × IsNumbered from bundles

-- `now` is the reading of the clock; nil dependencies are `none`.
pub record Syncer (S : Type 0) : Type 0 where
  pub fetcher : Option RangeFetcher
  pub chain : Option Reader
  pub store : Option (IndexStore S)
  pub config : Config
  pub now : Time

-- `NewSyncer` with its dependencies, whose clock reads `now`.
abbrev pub new_syncer :
    {S : Type 0} → RangeFetcher → Reader → IndexStore S → Config → Time → Syncer S
new_syncer fetcher chain store config now = record {
  fetcher = some fetcher;
  chain = some chain;
  store = some store;
  config = config;
  now = now;
}

pub data SyncMode : Type 0 where
  initial_load current append full_reload reorg : SyncMode

pub record ReorgResult : Type 0 where
  pub common_ancestor : Option ChainTip
  pub replaced_from : ℕ  -- uint64
  pub replaced_to : ℕ  -- uint64
  pub replaced_block_count : ℕ  -- uint64

pub record SyncResult : Type 0 where
  pub head : ChainTip
  pub stored_tip : Option ChainTip
  pub mode : SyncMode
  pub from_block : ℕ  -- uint64
  pub replace_from : ℕ  -- uint64
  pub block_count : ℕ  -- int
  pub transaction_count : ℕ  -- int
  pub event_count : ℕ  -- int
  pub synced_at : Time
  pub reorg : Option ReorgResult

pub record ReplacementPlan : Type 0 where
  pub from : ℕ  -- uint64
  pub mode : SyncMode
  pub reorg : Option ReorgResult

-- `a - b` on uint64
abbrev pub sub64 : ℕ → ℕ → ℕ
sub64 a b = (a + uint64_size - b) % uint64_size

unfoldable pub window_start : ℕ → ℕ → ℕ
window_start head block_window =
    if ltb head (sub64 block_window 1) then 0 else sub64 head (sub64 block_window 1)

-- `number.IsUint64()`, and the number
abbrev pub to_uint64 : BigInt → Option ℕ
to_uint64 none = none
to_uint64 (some (negsuc n)) = none
to_uint64 (some (pos n)) = if ltb n uint64_size then some n else none

abbrev pub valid_number : Option ℕ → Result ℕ
valid_number none = err inconsistent_block_data
valid_number (some n) = ok n

unfoldable pub valid_header_number : Header → Result ℕ
valid_header_number header = valid_number (to_uint64 header.number)

abbrev pub present : Option Header → Result Header
present none = err inconsistent_block_data
present (some header) = ok header

-- An unknown mode leaves the selector nil.
abbrev selector_of : HeadMode → Reader → BigInt
selector_of latest chain = none
selector_of safe chain = some chain.safe_block_number
selector_of finalized chain = some chain.finalized_block_number
selector_of other chain = none

unfoldable pub selected_head : HeadMode → Reader → Result Header
selected_head mode chain = do
  answer ← chain.header_by_number (selector_of mode chain)
  present answer
