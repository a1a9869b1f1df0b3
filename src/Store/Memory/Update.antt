-- ===== src/Store/Memory/Update.antt =====
-- What `ApplyCanonicalUpdate` stores, number by number.
use ethindexer.Common.{
  ℕ, ◌+◌, ◌-◌, ◌≤◌, ◌<◌, ◌≡◌, List, [], ◌∷◌, Option, none, some, arith, get_elem?, get_elem?-cons,
  ◌==◌, ltb, if◌then◌else◌, lookup, insert, lookup-insert, keys, Distinct, insert-Distinct,
  keep_keys, lookup-keep_keys, keep_keys-Distinct,
}
use ethindexer.Failure.{Context, ok}
use ethindexer.Domain.{BlockBundle, CanonicalUpdate, uint64_size}
use ethindexer.Store.Validate.{BundleMap, validate_canonical_bundles}
use ethindexer.Store.Validate.Replacement.{IsNumbered, validate_replacement-IsNumbered}
use ethindexer.Store.Memory.{
  Memory, store_blocks, is_kept, candidate_of, check_update, apply_canonical_update,
}
use ethindexer.Store.Memory.Clone.{clone_bundle, clone_bundle_lem, clone_bundles_lem}

-- `blocks` numbered upwards from `from`, over an older entry.
abbrev pub over : ℕ → List BlockBundle → ℕ → Option BlockBundle → Option BlockBundle
over from blocks number old =
    if ltb number from
    then old
    else (elim (get_elem? blocks (number - from)) [ none ↦ old | some bundle ↦ some bundle ])

over-cons :
    (from : ℕ) (bundle : BlockBundle) (rest : List BlockBundle) (number : ℕ)
    (old : Option BlockBundle)
    → over from (bundle ∷ rest) number old
      ≡ (if number == from then some bundle else over (from + 1) rest number old)
over-cons from bundle rest number old = ground (arith, get_elem?-cons bundle rest (number - from))

pub lookup-store_blocks :
    (blocks : List BlockBundle) (from number : ℕ) (m : BundleMap)
    → IsNumbered from blocks
    → lookup number (store_blocks blocks m) ≡ over from blocks number (lookup number m)
unfolding store_blocks
lookup-store_blocks [] from number m h = ground arith
lookup-store_blocks (bundle ∷ rest) from number m (here, more) = ground (
  arith,
  over-cons from bundle rest number (lookup number m),
  clone_bundle_lem bundle,
  lookup-insert bundle.block.number number (clone_bundle bundle) m,
  lookup-store_blocks rest (from + 1) number (insert bundle.block.number (clone_bundle bundle) m),
)

pub store_blocks-Distinct :
    (blocks : List BlockBundle) (m : BundleMap)
    → Distinct (keys m)
    → Distinct (keys (store_blocks blocks m))
unfolding store_blocks
store_blocks-Distinct [] m d = d
store_blocks-Distinct (bundle ∷ rest) m d =
    store_blocks-Distinct rest _ (insert-Distinct bundle.block.number (clone_bundle bundle) m d)

-- A Go map holds a key once.
abbrev pub IsMap : Memory → Type 0
IsMap m = Distinct (keys m.bundles)

module _ (ctx : Context) (update : CanonicalUpdate) (m : Memory) where
  -- A write that succeeds has passed every check and leaves the candidate.
  pub apply-eq-none :
      (apply_canonical_update ctx update m).1 ≡ none
      → (check_update ctx update m ≡ ok tt)
        × ((apply_canonical_update ctx update m).0 ≡ record {
          chain_id = update.chain_id;
          bundles = candidate_of update m;
          last_synced_at = update.synced_at;
        })
  unfolding apply_canonical_update
  apply-eq-none h = ground arith

module _ (ctx : Context) (update : CanonicalUpdate) (m : Memory)
    (small : update.replace_from < uint64_size)
    (succeeds : (apply_canonical_update ctx update m).1 ≡ none) where
  passed : check_update ctx update m ≡ ok tt
  passed = (apply-eq-none ctx update m succeeds).0

  pub apply_in_order : update.retain_from ≤ update.replace_from
  unfolding check_update
  apply_in_order = ground (arith, passed)

  pub apply-IsNumbered : IsNumbered update.replace_from update.blocks
  unfolding check_update
  apply-IsNumbered = ground (arith, passed, validate_replacement-IsNumbered update small)

  pub apply-validated :
      validate_canonical_bundles (apply_canonical_update ctx update m).0.bundles ≡ ok tt
  unfolding check_update
  apply-validated = ground (arith, passed, apply-eq-none ctx update m succeeds)

  pub apply-IsMap : IsMap m → IsMap (apply_canonical_update ctx update m).0
  unfolding candidate_of
  apply-IsMap d =
      rw ((apply-eq-none ctx update m succeeds).1, clone_bundles_lem)
        (store_blocks-Distinct update.blocks _ (keep_keys-Distinct (is_kept update) m.bundles d))

  -- After a write that succeeds, with a uint64 as `ReplaceFrom`, a number holds: nothing below
  -- `RetainFrom`, the old bundle from there up to `ReplaceFrom`, and from `ReplaceFrom` on the
  -- update's blocks, in order.
  pub lookup-apply :
      (number : ℕ)
      → lookup number (apply_canonical_update ctx update m).0.bundles ≡ (
          if ltb number update.retain_from
          then none
          else (if ltb number update.replace_from
              then lookup number m.bundles
              else get_elem? update.blocks (number - update.replace_from)))
  unfolding candidate_of
  lookup-apply number = ground (
    arith,
    apply_in_order,
    apply-eq-none ctx update m succeeds,
    clone_bundles_lem m.bundles,
    lookup-store_blocks update.blocks update.replace_from number
        (keep_keys (is_kept update) m.bundles) apply-IsNumbered,
    lookup-keep_keys (is_kept update) number m.bundles,
  )
