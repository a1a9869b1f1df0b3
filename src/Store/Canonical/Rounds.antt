-- ===== src/Store/Canonical/Rounds.antt =====
-- The rounds of `validateCanonicalBundles` over the sorted numbers, from any round on.
use ethindexer.Common.{
  ℕ, ◌+◌, ◌<◌, ◌≡◌, List, [], ◌∷◌, Option, some, arith, true, false, ◌&&◌, inl, inr, length, elem,
  ltb, leb, ==→eq, ◌==◌, Bool-cases, All, IsAscending,
}
use ethindexer.Failure.{ok, >>=-eq-ok}
use ethindexer.Domain.{Hash, Block}
use ethindexer.Store.Validate.{BundleMap, bundle_at, check_bundle, check_bundles}
use ethindexer.Store.Validate.Transactions.{hashes}
use ethindexer.Store.Canonical.Bundle.{
  IsConsistent, check_bundle-IsConsistent, check_bundle-links, check_bundle-seen,
  check_bundle-fresh,
}

-- `k`, `k + 1`, …
abbrev pub IsRun : ℕ → List ℕ → Type 0
IsRun k [] = Unit
IsRun k (n ∷ ns) = (n ≡ k) × IsRun (k + 1) ns

pub elem-IsRun :
    (k x : ℕ) (ns : List ℕ) → IsRun k ns → elem x ns ≡ (leb k x && ltb x (k + length ns))
elem-IsRun k x [] r = ground arith
elem-IsRun k x (n ∷ ns) r = ground (arith, elem-IsRun (k + 1) x ns)

module _ (m : BundleMap) where
  abbrev pub txs : ℕ → List Hash
  txs n = hashes (bundle_at n m).transactions

  pub check_bundles_step :
      (previous : Option Block) (n : ℕ) (ns : List ℕ) (seen : List Hash)
      → check_bundles m previous (n ∷ ns) seen ≡ ok tt
      → (seen' : List Hash) × (check_bundle previous n (bundle_at n m) seen ≡ ok seen')
        × (check_bundles m (some (bundle_at n m).block) ns seen' ≡ ok tt)
  unfolding check_bundles
  check_bundles_step previous n ns seen h = >>=-eq-ok _ _ h

  pub each-IsConsistent :
      (previous : Option Block) (ns : List ℕ) (seen : List Hash) (x : ℕ)
      → check_bundles m previous ns seen ≡ ok tt
      → elem x ns ≡ true
      → IsConsistent x (bundle_at x m)
  each-IsConsistent previous [] seen x h e = cc
  each-IsConsistent previous (n ∷ ns) seen x h e =
      let (seen', first, rest) = check_bundles_step previous n ns seen h in
      elim (Bool-cases (x == n)) [
        | inl here ↦ rw (==→eq x n here) (check_bundle-IsConsistent previous n _ seen seen' first)
        | inr other ↦ each-IsConsistent (some (bundle_at n m).block) ns seen' x rest (ground arith)
      ]

  fresh :
      (previous : Option Block) (ns : List ℕ) (seen : List Hash) (x : ℕ) (a : Hash)
      → check_bundles m previous ns seen ≡ ok tt
      → elem x ns ≡ true
      → elem a (txs x) ≡ true
      → elem a seen ≡ false
  fresh previous [] seen x a h e t = cc
  fresh previous (n ∷ ns) seen x a h e t =
      let (seen', first, rest) = check_bundles_step previous n ns seen h in
      elim (Bool-cases (x == n)) [
        | inl here ↦ check_bundle-fresh previous n _ seen seen' first a (rw (==→eq x n here) at t)
        | inr other ↦ ground (
          arith,
          fresh (some (bundle_at n m).block) ns seen' x a rest (ground arith) t,
          check_bundle-seen previous n _ seen seen' first a,
        )
      ]

  pub unique :
      (previous : Option Block) (ns : List ℕ) (seen : List Hash) (x y : ℕ) (a : Hash)
      → check_bundles m previous ns seen ≡ ok tt
      → elem x ns ≡ true
      → elem y ns ≡ true
      → elem a (txs x) ≡ true
      → elem a (txs y) ≡ true
      → x ≡ y
  unique previous [] seen x y a h ex ey tx ty = cc
  unique previous (n ∷ ns) seen x y a h ex ey tx ty =
      let (seen', first, rest) = check_bundles_step previous n ns seen h in
      let grown = check_bundle-seen previous n _ seen seen' first a in
      elim (Bool-cases (x == n)) [
        | inl x_here ↦ elim (Bool-cases (y == n)) [
          | inl y_here ↦ ground arith
          | inr y_other ↦ absurd (
              let t : elem a (txs n) ≡ true = rw (==→eq x n x_here) at tx in
              ground (
                arith,
                t,
                grown,
                fresh (some (bundle_at n m).block) ns seen' y a rest (ground arith) ty,
              ))
        ]
        | inr x_other ↦ elim (Bool-cases (y == n)) [
          | inl y_here ↦ absurd (
              let t : elem a (txs n) ≡ true = rw (==→eq y n y_here) at ty in
              ground (
                arith,
                t,
                grown,
                fresh (some (bundle_at n m).block) ns seen' x a rest (ground arith) tx,
              ))
          | inr y_other ↦
              unique (some (bundle_at n m).block) ns seen' x y a rest (ground arith) (ground arith)
                tx ty
        ]
      ]

  -- The numbers after `k` go on from it without a gap.
  pub each_next :
      (k : ℕ) (ns : List ℕ) (seen : List Hash)
      → (bundle_at k m).block.number ≡ k
      → All (λ x. k < x) ns
      → IsAscending ns
      → check_bundles m (some (bundle_at k m).block) ns seen ≡ ok tt
      → IsRun (k + 1) ns
  each_next k [] seen b above up h = tt
  each_next k (n ∷ ns) seen b above up h =
      let (seen', first, rest) = check_bundles_step _ n ns seen h in
      let link = check_bundle-links _ n _ seen seen' first in
      let here : n ≡ k + 1 = ground arith in
      let known = check_bundle-IsConsistent _ n _ seen seen' first in
      (here, rw (← here) (each_next n ns seen' known.numbered up.0 up.1 rest))

  -- Each number names the block before it.
  pub each_linked :
      (k : ℕ) (ns : List ℕ) (seen : List Hash) (x : ℕ)
      → (bundle_at k m).block.number ≡ k
      → All (λ y. k < y) ns
      → IsAscending ns
      → check_bundles m (some (bundle_at k m).block) ns seen ≡ ok tt
      → elem x (k ∷ ns) ≡ true
      → elem (x + 1) ns ≡ true
      → (bundle_at (x + 1) m).block.parent_hash ≡ (bundle_at x m).block.hash
  each_linked k [] seen x b above up h ex en = cc
  each_linked k (n ∷ ns) seen x b above up h ex en =
      let (seen', first, rest) = check_bundles_step _ n ns seen h in
      let link = check_bundle-links _ n _ seen seen' first in
      let known = check_bundle-IsConsistent _ n _ seen seen' first in
      elim (Bool-cases (x == k)) [
        | inl here ↦
            let next : n ≡ x + 1 = ground arith in
            let parent : (bundle_at n m).block.parent_hash ≡ (bundle_at k m).block.hash =
              ground arith in
            rw (← next, ==→eq x k here) parent
        | inr later ↦
            each_linked n ns seen' x known.numbered up.0 up.1 rest (ground arith) (ground arith)
      ]
