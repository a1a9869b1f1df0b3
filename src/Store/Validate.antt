-- ===== src/Store/Validate.antt =====
-- internal/store/memory.go: `validateReplacement`, `validateCanonicalBundles` and their helpers.
pub mod Replacement
pub mod Transactions
pub mod Events
use ethindexer.Common.{
  ℕ, suc, ◌+◌, ◌-◌, ◌%◌, List, [], ◌∷◌, Option, none, some, Bool, true, false, not, ◌&&◌, length,
  lookup, keys, elem, leb, ltb, ◌==◌, sort_by, pos, eqb_ℤ,
}
use ethindexer.Failure.{Result, ok, ◌>>=◌, ◌>>◌, guard, invalid_canonical_update}
use ethindexer.Domain.{
  Hash, Block, Transaction, Event, BlockBundle, CanonicalUpdate, uint32_size, uint64_size,
}

-- The field `bundles map[uint64]domain.BlockBundle`: entries in an order that Go leaves open.
abbrev pub BundleMap : Type 0
BundleMap = List (ℕ × BlockBundle)

-- Go's zero value, which a read of a missing key gives.
abbrev pub zero_bundle : BlockBundle
zero_bundle = record {
  block = record {
    number = 0;
    hash = 0;
    parent_hash = 0;
    timestamp = 0;
    gas_limit = 0;
    gas_used = 0;
    base_fee_per_gas = none;
    transaction_count = pos 0;
    indexed_at = 0;
  };
  transactions = [];
  events = [];
}

abbrev or_zero : Option BlockBundle → BlockBundle
or_zero none = zero_bundle
or_zero (some b) = b

-- `bundles[number]`
abbrev pub bundle_at : ℕ → BundleMap → BlockBundle
bundle_at number bundles = or_zero (lookup number bundles)

-- The loop of `validateReplacement`, after a block numbered `previous`.
unfoldable pub check_contiguous : ℕ → List BlockBundle → Result (Unit {0})
check_contiguous previous [] = ok tt
check_contiguous previous (bundle ∷ rest) = do
  guard (not (previous == uint64_size - 1) && bundle.block.number == (previous + 1) % uint64_size)
      invalid_canonical_update
  check_contiguous bundle.block.number rest

unfoldable pub check_replacement : ℕ → List BlockBundle → Result (Unit {0})
check_replacement replace_from [] = ok tt
check_replacement replace_from (first ∷ rest) = do
  guard (first.block.number == replace_from) invalid_canonical_update
  check_contiguous first.block.number rest

unfoldable pub validate_replacement : CanonicalUpdate → Result (Unit {0})
unfolding check_replacement
validate_replacement update = check_replacement update.replace_from update.blocks

-- `sort.Slice(numbers, numbers[left] < numbers[right])` over the keys.
unfoldable pub sorted_block_numbers : BundleMap → List ℕ
sorted_block_numbers bundles = sort_by ltb (keys bundles)

-- The transactions of one block from position `index` on. It returns the hashes seen so far and
-- the map from hash to index of this block.
unfoldable pub check_transactions :
    ℕ
    → Hash
    → ℕ
    → List Transaction
    → List Hash
    → List (Hash × ℕ)
    → Result (List Hash × List (Hash × ℕ))
check_transactions number hash index [] seen positions = ok (seen, positions)
check_transactions number hash index (transaction ∷ rest) seen positions = do
  guard
      (transaction.block_number == number
        && transaction.block_hash == hash
        && transaction.index == index % uint32_size)
      invalid_canonical_update
  guard (not (elem transaction.hash seen)) invalid_canonical_update
  check_transactions number hash (suc index) rest (transaction.hash ∷ seen)
      ((transaction.hash, transaction.index) ∷ positions)

abbrev pub position_is : ℕ → Option ℕ → Bool
position_is index none = false
position_is index (some position) = index == position

-- The events of one block; `seen` holds the log indexes so far.
unfoldable pub check_events : ℕ → Hash → List (Hash × ℕ) → List Event → List ℕ → Result (Unit {0})
check_events number hash positions [] seen = ok tt
check_events number hash positions (event ∷ rest) seen = do
  guard (position_is event.transaction_index (lookup event.transaction_hash positions))
      invalid_canonical_update
  guard (event.block_number == number && event.block_hash == hash) invalid_canonical_update
  guard (leb (length event.topics) 4) invalid_canonical_update
  guard (not (elem event.log_index seen)) invalid_canonical_update
  check_events number hash positions rest (event.log_index ∷ seen)

-- The test `if position > 0`, with the block at the number before.
abbrev pub links : Option Block → ℕ → Block → Bool
links none number block = true
links (some previous) number block =
    number == (previous.number + 1) % uint64_size && block.parent_hash == previous.hash

-- One round of the loop over the numbers; it returns the transaction hashes seen so far.
unfoldable pub check_bundle : Option Block → ℕ → BlockBundle → List Hash → Result (List Hash)
check_bundle previous number bundle seen = do
  guard (bundle.block.number == number) invalid_canonical_update
  guard (links previous number bundle.block) invalid_canonical_update
  guard (eqb_ℤ bundle.block.transaction_count (pos (length bundle.transactions)))
      invalid_canonical_update
  guard (ltb (length bundle.transactions) uint32_size) invalid_canonical_update
  (seen', positions) ← check_transactions number bundle.block.hash 0 bundle.transactions seen []
  check_events number bundle.block.hash positions bundle.events []
  ok seen'

unfoldable pub check_bundles : BundleMap → Option Block → List ℕ → List Hash → Result (Unit {0})
check_bundles bundles previous [] seen = ok tt
check_bundles bundles previous (number ∷ numbers) seen = do
  seen' ← check_bundle previous number (bundle_at number bundles) seen
  check_bundles bundles (some (bundle_at number bundles).block) numbers seen'

unfoldable pub validate_canonical_bundles : BundleMap → Result (Unit {0})
validate_canonical_bundles bundles = check_bundles bundles none (sorted_block_numbers bundles) []
