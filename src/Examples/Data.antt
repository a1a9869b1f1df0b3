-- ===== src/Examples/Data.antt =====
-- A small chain: block `n` has the hash 100 + n; the store has seen another block 3.
use ethindexer.Common.{
  ℕ, suc, zero, ◌+◌, ◌-◌, ◌≤◌, ◌<◌, ◌≡◌, refl, List, [], ◌∷◌, Option, none, some, true, false, ltb,
  if◌then◌else◌, ℤ, pos, negsuc, length, arith,
}
use ethindexer.Failure.{Result, ok, err, not_found, invalid_low_fetch_range}
use ethindexer.Domain.{Hash, BigInt, BlockBundle, ChainTip, CanonicalUpdate, latest, uint64_size}
use ethindexer.Ethereum.{Header, Reader, RawBlock, RawTransaction, RawLog}
use ethindexer.Store.Memory.{Memory}
use ethindexer.Store.Memory.Interface.{Readings, memory_store}
use ethindexer.Store.Validate.Replacement.{IsNumbered}
use ethindexer.Indexer.Syncer.{Config, Syncer, RangeFetcher}
use ethindexer.Indexer.Fetcher.{Fetcher}

abbrev pub bundle_with : ℕ → Hash → Hash → BlockBundle
bundle_with number hash parent_hash = record {
  block = record {
    number = number;
    hash = hash;
    parent_hash = parent_hash;
    timestamp = 0;
    gas_limit = 0;
    gas_used = 0;
    base_fee_per_gas = none;
    transaction_count = pos 0;
    indexed_at = 0;
  };
  transactions = [];
  events = [];
}

abbrev pub bundle_of_chain : ℕ → BlockBundle
bundle_of_chain number = bundle_with number (100 + number) (99 + number)

abbrev pub raw_block : List (Option RawTransaction) → ℕ → RawBlock
raw_block transactions number = record {
  number = some (pos number);
  hash = 100 + number;
  parent_hash = 99 + number;
  time = 0;
  gas_limit = 0;
  gas_used = 0;
  base_fee = none;
  transactions = transactions;
}

abbrev pub head_header : Header
head_header = record { number = some (pos 4); hash = 104 }

abbrev header_at : BigInt → Result (Option Header)
header_at none = ok (some head_header)
header_at (some (pos n)) = ok (some (record { number = some (pos n); hash = 100 + n }))
header_at (some (negsuc n)) = err not_found

-- A chain without transactions.
abbrev pub quiet_chain : Reader
quiet_chain = record {
  block_by_number = λ number. ok (some (raw_block [] number));
  header_by_number = header_at;
  logs_by_block_hash = λ hash. ok [];
  safe_block_number = negsuc 3;
  finalized_block_number = negsuc 2;
}

abbrev pub quiet_fetcher : Fetcher
quiet_fetcher = record {
  chain = quiet_chain;
  chain_id = pos 1;
  signer = λ transaction. ok 7;
  legacy_tx_type = 0;
  access_list_tx_type = 1;
  now = λ number. 0;
}

abbrev pub transfer : RawTransaction
transfer = record {
  hash = 900;
  is_protected = true;
  chain_id = pos 1;
  kind = 2;
  nonce = 0;
  recipient = some 8;
  value = some (pos 5);
  gas = 21_000;
  gas_price = some (pos 3);
  gas_fee_cap = some (pos 3);
  gas_tip_cap = some (pos 1);
  payload = [];
}

abbrev pub transfer_log : RawLog
transfer_log = record {
  block_number = 5;
  block_hash = 105;
  tx_hash = 900;
  tx_index = 0;
  index = 3;
  address = 8;
  topics = 1 ∷ 2 ∷ [];
  payload = [];
  removed = false;
}

-- Block 5 with a transaction and its event.
abbrev pub busy_fetcher : Fetcher
busy_fetcher = record quiet_fetcher {
  chain = record quiet_chain {
    block_by_number = λ number. ok (some (raw_block (some transfer ∷ []) number));
    logs_by_block_hash = λ hash. ok (transfer_log ∷ []);
  };
}

abbrev pub bundles_from : ℕ → ℕ → List BlockBundle
bundles_from from zero = []
bundles_from from (suc count) = bundle_of_chain from ∷ bundles_from (from + 1) count

length-bundles_from : (from count : ℕ) → length (bundles_from from count) ≡ count
length-bundles_from from zero = refl
length-bundles_from from (suc count) = omega (arith, length-bundles_from (from + 1) count)

bundles_from-IsNumbered : (from count : ℕ) → IsNumbered from (bundles_from from count)
bundles_from-IsNumbered from zero = tt
bundles_from-IsNumbered from (suc count) = (refl, bundles_from-IsNumbered (from + 1) count)

abbrev pub ranges : ℕ → ℕ → ℤ → Result (List BlockBundle)
ranges from to concurrency =
    if ltb to from then err invalid_low_fetch_range else ok (bundles_from from (to - from + 1))

pub ranges-IsNumbered :
    (from to : ℕ) (concurrency : ℤ) (bundles : List BlockBundle)
    → to < uint64_size
    → ranges from to concurrency ≡ ok bundles
    → (from ≤ to) × (length bundles ≡ to - from + 1) × IsNumbered from bundles
ranges-IsNumbered from to concurrency bundles small h = (
  ground (arith, h),
  ground (arith, h, length-bundles_from from (to - from + 1)),
  ground (arith, h, bundles_from-IsNumbered from (to - from + 1)),
)

abbrev pub range_fetcher : RangeFetcher
range_fetcher = record {
  chain_id = some (pos 1);
  fetch_range = ranges;
  fetch_range_numbered = ranges-IsNumbered;
}

abbrev pub config : Config
config = record {
  chain_id = 1;
  poll_interval = pos 12;
  block_window = 3;
  head_mode = latest;
  rpc_timeout = pos 5;
  rpc_concurrency = pos 2;
  retry_attempts = pos 3;
  retry_min_backoff = pos 2;
  retry_max_backoff = pos 3;
}

abbrev pub alive_readings : Readings
alive_readings = record { at_tip = none; at_hash = λ number. none; at_apply = none }

-- The store holds the blocks 1 and 2 of the chain and a block 3 of a fork.
abbrev pub forked : Memory
forked = record {
  chain_id = 1;
  bundles = (2, bundle_of_chain 2) ∷ (3, bundle_with 3 203 102) ∷ (1, bundle_of_chain 1) ∷ [];
  last_synced_at = 0;
}

abbrev pub forked_tip : ChainTip
forked_tip = record { number = 3; hash = 203 }

abbrev pub head : ChainTip
head = record { number = 4; hash = 104 }

abbrev pub syncer : Syncer Memory
syncer = record {
  fetcher = some range_fetcher;
  chain = some quiet_chain;
  store = some (memory_store alive_readings);
  config = config;
  now = 77;
}

abbrev pub reorg_update : CanonicalUpdate
reorg_update = record {
  chain_id = 1;
  replace_from = 3;
  retain_from = 2;
  blocks = bundles_from 3 2;
  synced_at = 77;
}
