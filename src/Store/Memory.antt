-- ===== src/Store/Memory.antt =====
-- internal/store/memory.go: the state of `Memory`, its tip and its write.
-- `Clone` has the copies, `Queries` the reads of the API.
-- The lock makes each method one step, so a method is a function of the state.
pub mod Clone
pub mod Before
pub mod Emitted
pub mod Queries
pub mod Tip
pub mod Interface
pub mod Update
pub mod Lookup
pub mod Newest
pub mod Strict
pub mod Resume
pub mod Pages
pub mod Selection
use ethindexer.Common.{
  ℕ, List, [], ◌∷◌, Option, none, some, Bool, true, false, not, ◌&&◌, ◌||◌, leb, ltb, ◌==◌,
  if◌then◌else◌, keys, lookup, insert, keep_keys,
}
use ethindexer.Failure.{
  Error, Result, ok, err, ◌>>=◌, ◌>>◌, guard, alive, Context, not_found, invalid_canonical_update,
}
use ethindexer.Domain.{Hash, Time, BlockBundle, ChainTip, CanonicalUpdate}
use ethindexer.Store.Validate.{
  BundleMap, bundle_at, validate_replacement, validate_canonical_bundles,
}
use Clone.{clone_bundle, clone_bundles}

pub record Memory : Type 0 where
  pub chain_id : ℕ  -- uint64
  pub bundles : BundleMap
  pub last_synced_at : Time

abbrev pub new_memory : Memory
new_memory = record { chain_id = 0; bundles = []; last_synced_at = 0 }

-- The loop of `highestBundle`: the highest number so far, if any was found.
unfoldable pub highest_from : Option ℕ → List ℕ → Option ℕ
highest_from highest [] = highest
highest_from none (number ∷ numbers) = highest_from (some number) numbers
highest_from (some highest) (number ∷ numbers) =
    highest_from (some (if ltb highest number then number else highest)) numbers

unfoldable pub highest_bundle : BundleMap → Option ℕ
highest_bundle bundles = highest_from none (keys bundles)

abbrev tip_of : BundleMap → Option ℕ → Option ChainTip
tip_of bundles none = none
tip_of bundles (some number) =
    some (record { number = number; hash = (bundle_at number bundles).block.hash })

unfoldable pub canonical_tip : Context → Memory → Result (Option ChainTip)
canonical_tip ctx m = do alive ctx; ok (tip_of m.bundles (highest_bundle m.bundles))

abbrev hash_of : Option BlockBundle → Result Hash
hash_of none = err not_found
hash_of (some bundle) = ok bundle.block.hash

unfoldable pub canonical_hash : Context → ℕ → Memory → Result Hash
canonical_hash ctx number m = do alive ctx; hash_of (lookup number m.bundles)

-- `for _, bundle := range update.Blocks { candidate[bundle.Block.Number] = cloneBundle(bundle) }`
unfoldable pub store_blocks : List BlockBundle → BundleMap → BundleMap
store_blocks [] candidate = candidate
store_blocks (bundle ∷ rest) candidate =
    store_blocks rest (insert bundle.block.number (clone_bundle bundle) candidate)

-- The numbers that the deletion loop leaves.
abbrev pub is_kept : CanonicalUpdate → ℕ → Bool
is_kept update number = not (leb update.replace_from number || ltb number update.retain_from)

unfoldable pub candidate_of : CanonicalUpdate → Memory → BundleMap
candidate_of update m =
    store_blocks update.blocks (keep_keys (is_kept update) (clone_bundles m.bundles))

-- Every check of `ApplyCanonicalUpdate`, in its order.
unfoldable pub check_update : Context → CanonicalUpdate → Memory → Result (Unit {0})
check_update ctx update m = do
  alive ctx
  guard (not (update.chain_id == 0)) invalid_canonical_update
  guard (leb update.retain_from update.replace_from) invalid_canonical_update
  validate_replacement update
  guard (m.chain_id == 0 || m.chain_id == update.chain_id) invalid_canonical_update
  validate_canonical_bundles (candidate_of update m)

unfoldable pub apply_canonical_update : Context → CanonicalUpdate → Memory → Memory × Option Error
apply_canonical_update ctx update m = elim (check_update ctx update m) [
  | err e ↦ (m, some e)
  | ok _ ↦ (
    record {
      chain_id = update.chain_id;
      bundles = candidate_of update m;
      last_synced_at = update.synced_at;
    },
    none,
  )
]
