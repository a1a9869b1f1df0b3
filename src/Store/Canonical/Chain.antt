-- ===== src/Store/Canonical/Chain.antt =====
-- The whole map that `validateCanonicalBundles` has let pass.
use ethindexer.Common.{
  ℕ, ◌+◌, ◌≤◌, ◌≡◌, sym, ◌∙◌, List, [], ◌∷◌, none, some, arith, true, lookup, elem, Distinct,
  is_some, keys, elem-keys, IsAscending, elem-sort_by, sort_by-IsAscending, elem-All,
}
use ethindexer.Failure.{ok}
use ethindexer.Domain.{Hash, BlockBundle}
use ethindexer.Store.Validate.{
  BundleMap, bundle_at, check_bundles, sorted_block_numbers, validate_canonical_bundles,
}
use ethindexer.Store.Validate.Transactions.{hashes}
use ethindexer.Store.Canonical.Bundle.{IsConsistent, check_bundle-IsConsistent}
use ethindexer.Store.Canonical.Rounds.{
  elem-IsRun, check_bundles_step, each-IsConsistent, unique, each_next, each_linked,
}

-- The stored blocks form one chain, with no gap, each block naming its parent, and no transaction
-- stands in two blocks.
pub record IsCanonical (m : BundleMap) : Type 0 where
  pub consistent : (n : ℕ) (b : BlockBundle) → lookup n m ≡ some b → IsConsistent n b
  pub linked :
      (n : ℕ) (b c : BlockBundle)
      → lookup n m ≡ some b
      → lookup (n + 1) m ≡ some c
      → c.block.parent_hash ≡ b.block.hash
  pub gapless :
      (a n c : ℕ)
      → a ≤ n
      → n ≤ c
      → is_some (lookup a m) ≡ true
      → is_some (lookup c m) ≡ true
      → is_some (lookup n m) ≡ true
  pub transactions_unique :
      (n k : ℕ) (b c : BlockBundle) (a : Hash)
      → lookup n m ≡ some b
      → lookup k m ≡ some c
      → elem a (hashes b.transactions) ≡ true
      → elem a (hashes c.transactions) ≡ true
      → n ≡ k

module _ (m : BundleMap) (distinct : Distinct (keys m))
    (passed : validate_canonical_bundles m ≡ ok tt) where
  checked : check_bundles m none (sorted_block_numbers m) [] ≡ ok tt
  unfolding validate_canonical_bundles
  checked = passed

  elem-sorted : (x : ℕ) → elem x (sorted_block_numbers m) ≡ is_some (lookup x m)
  unfolding sorted_block_numbers
  elem-sorted x = elem-sort_by x (keys m) ∙ elem-keys x m

  sorted-IsAscending : IsAscending (sorted_block_numbers m)
  unfolding sorted_block_numbers
  sorted-IsAscending = sort_by-IsAscending (keys m) distinct

  gapless_from :
      (ns : List ℕ)
      → IsAscending ns
      → check_bundles m none ns [] ≡ ok tt
      → (a n c : ℕ) → a ≤ n
      → n ≤ c
      → elem a ns ≡ true
      → elem c ns ≡ true
      → elem n ns ≡ true
  gapless_from [] up h a n c an nc ea ec = cc
  gapless_from (k ∷ ns) up h a n c an nc ea ec =
      let (seen', first, rest) = check_bundles_step m none k ns [] h in
      let known = check_bundle-IsConsistent none k _ [] seen' first in
      let run = each_next m k ns seen' known.numbered up.0 up.1 rest in
      ground (
        arith,
        elem-IsRun (k + 1) a ns run,
        elem-IsRun (k + 1) n ns run,
        elem-IsRun (k + 1) c ns run,
      )

  linked_from :
      (ns : List ℕ)
      → IsAscending ns
      → check_bundles m none ns [] ≡ ok tt
      → (x : ℕ) → elem x ns ≡ true
      → elem (x + 1) ns ≡ true
      → (bundle_at (x + 1) m).block.parent_hash ≡ (bundle_at x m).block.hash
  linked_from [] up h x ex en = cc
  linked_from (k ∷ ns) up h x ex en =
      let (seen', first, rest) = check_bundles_step m none k ns [] h in
      let known = check_bundle-IsConsistent none k _ [] seen' first in
      let later : elem (x + 1) ns ≡ true = ground (arith, elem-All k x ns up.0) in
      each_linked m k ns seen' x known.numbered up.0 up.1 rest ex later

  elem_found :
      (n : ℕ) (b : BlockBundle) → lookup n m ≡ some b → elem n (sorted_block_numbers m) ≡ true
  elem_found n b e = elem-sorted n ∙ rw e

  at_found : (n : ℕ) (b : BlockBundle) → lookup n m ≡ some b → bundle_at n m ≡ b
  at_found n b e = rw e

  -- If `validateCanonicalBundles` accepts a map that holds each number once, its blocks form one
  -- canonical chain: every bundle is consistent at its number, no number between two stored ones
  -- is missing, each block's parent hash is the hash of the block before it, and no transaction
  -- stands in two blocks.
  pub validate-IsCanonical : IsCanonical m
  validate-IsCanonical = record {
    consistent = λ n b e.
        rw (at_found n b e) at
          (each-IsConsistent m none (sorted_block_numbers m) [] n checked (elem_found n b e));
    linked = λ n b c eb ec. cc (
      at_found n b eb,
      at_found (n + 1) c ec,
      linked_from (sorted_block_numbers m) sorted-IsAscending checked n (elem_found n b eb)
          (elem_found (n + 1) c ec),
    );
    gapless = λ a n c an nc ea ec.
        sym (elem-sorted n)
        ∙ gapless_from (sorted_block_numbers m) sorted-IsAscending checked a n c an nc
            (elem-sorted a ∙ ea) (elem-sorted c ∙ ec);
    transactions_unique = λ n k b c a eb ec tb tc.
        unique m none (sorted_block_numbers m) [] n k a checked (elem_found n b eb)
          (elem_found k c ec) (rw (at_found n b eb) tb) (rw (at_found k c ec) tc);
  }
