-- ===== src/Store/Memory/Tip.antt =====
-- `CanonicalTip` and `CanonicalHash` of the in-memory store.
use ethindexer.Common.{
  ℕ, ◌≤◌, ◌≡◌, refl, sym, subst, ◌∙◌, List, [], ◌∷◌, none, some, arith, true, false, ◌⊎◌, inl, inr,
  lookup, elem, keys, elem-keys, is_some, Option-cases, ltb, if◌then◌else◌,
}
use ethindexer.Failure.{ok}
use ethindexer.Domain.{BlockBundle, ChainTip}
use ethindexer.Store.Validate.{bundle_at}
use ethindexer.Store.Memory.{Memory, highest_from, highest_bundle, canonical_tip}

-- A number that a scan returns: it was given or stands in the list, and none is above it.
record IsHighest (start : ℕ) (numbers : List ℕ) (r : ℕ) : Type 0 where
  above_start : start ≤ r
  above : (x : ℕ) → elem x numbers ≡ true → x ≤ r
  there : (r ≡ start) ⊎ (elem r numbers ≡ true)

highest_from_lem :
    (start : ℕ) (numbers : List ℕ)
    → (r : ℕ) × (highest_from (some start) numbers ≡ some r) × IsHighest start numbers r
unfolding highest_from
highest_from_lem start [] =
    (start, refl, record { above_start = omega arith; above = λ x e. cc; there = inl refl })
highest_from_lem start (n ∷ numbers) =
    let next = if ltb start n then n else start in
    let (r, found, h) = highest_from_lem next numbers in
    (
      r,
      found,
      record {
        above_start = ground (arith, h.above_start);
        above = λ x e. ground (arith, h.above_start, h.above x);
        there = ground (arith, h.there);
      },
    )

-- The highest number of a list that is not empty.
highest_of :
    (numbers : List ℕ) (x : ℕ)
    → elem x numbers ≡ true
    → (r : ℕ) × (highest_from none numbers ≡ some r)
      × (elem r numbers ≡ true)
      × ((k : ℕ) → elem k numbers ≡ true → k ≤ r)
unfolding highest_from
highest_of [] x e = cc
highest_of (n ∷ numbers) x e =
    let (r, found, h) = highest_from_lem n numbers in
    (r, found, ground (arith, h.there), λ k ek. ground (arith, h.above_start, h.above k))

highest_found :
    (numbers : List ℕ) (r : ℕ)
    → highest_from none numbers ≡ some r
    → (elem r numbers ≡ true) × ((k : ℕ) → elem k numbers ≡ true → k ≤ r)
unfolding highest_from
highest_found [] r e = cc
highest_found (n ∷ numbers) r e =
    let (q, found, h) = highest_from_lem n numbers in
    let same : q ≡ r = cc (found) in
    let top : IsHighest n numbers r = subst (IsHighest n numbers) same h in
    (ground (arith, top.there), λ k ek. ground (arith, top.above_start, top.above k))

none_of_empty :
    (numbers : List ℕ) → highest_from none numbers ≡ none → (k : ℕ) → elem k numbers ≡ false
unfolding highest_from
none_of_empty [] e k = refl
none_of_empty (n ∷ numbers) e k = let (r, found, h) = highest_from_lem n numbers in cc (found)

module _ (m : Memory) where
  -- If a block is stored at a number and nothing is stored above it, `CanonicalTip` on a live
  -- context returns that number and the block's hash.
  pub canonical_tip-highest :
      (n : ℕ) (b : BlockBundle)
      → lookup n m.bundles ≡ some b
      → ((k : ℕ) → is_some (lookup k m.bundles) ≡ true → k ≤ n)
      → canonical_tip none m ≡ ok (some (record { number = n; hash = b.block.hash }))
  unfolding canonical_tip highest_bundle
  canonical_tip-highest n b e top =
      let (r, found, there, above) = highest_of (keys m.bundles) n (elem-keys n m.bundles ∙ rw e) in
      let same : r ≡ n = omega (
        arith,
        above n (elem-keys n m.bundles ∙ rw e),
        top r (sym (elem-keys r m.bundles) ∙ there),
      ) in
      rw (found, same, e)

  -- A tip that `CanonicalTip` returns on a live context is the number and the hash of a stored
  -- block, and nothing is stored above it.
  pub canonical_tip-eq-some :
      (tip : ChainTip)
      → canonical_tip none m ≡ ok (some tip)
      → (b : BlockBundle) × (lookup tip.number m.bundles ≡ some b)
        × (tip.hash ≡ b.block.hash)
        × ((k : ℕ) → is_some (lookup k m.bundles) ≡ true → k ≤ tip.number)
  unfolding canonical_tip highest_bundle
  canonical_tip-eq-some tip e = elim (Option-cases (highest_from none (keys m.bundles))) [
    | inl missing ↦ cc (missing)
    | inr (r, found) ↦
        let (there, above) = highest_found (keys m.bundles) r found in
        let here : tip ≡ record { number = r; hash = (bundle_at r m.bundles).block.hash } =
          ground arith in
        let stored : is_some (lookup tip.number m.bundles) ≡ true =
          rw here (sym (elem-keys r m.bundles) ∙ there) in
        stored_tip r here stored above
  ]
    where
      stored_tip :
          (r : ℕ)
          → tip ≡ record { number = r; hash = (bundle_at r m.bundles).block.hash }
          → is_some (lookup tip.number m.bundles) ≡ true
          → ((k : ℕ) → elem k (keys m.bundles) ≡ true → k ≤ r)
          → (b : BlockBundle) × (lookup tip.number m.bundles ≡ some b)
            × (tip.hash ≡ b.block.hash)
            × ((k : ℕ) → is_some (lookup k m.bundles) ≡ true → k ≤ tip.number)
      stored_tip r here stored above = elim (Option-cases (lookup tip.number m.bundles)) [
        | inl missing ↦ cc (missing)
        | inr (b, found) ↦
            (b, found, ground arith, λ k ek. rw here (above k (elem-keys k m.bundles ∙ ek)))
      ]

  -- If it returns no tip, no block is stored.
  pub canonical_tip-eq-none : canonical_tip none m ≡ ok none → (k : ℕ) → lookup k m.bundles ≡ none
  unfolding canonical_tip highest_bundle
  canonical_tip-eq-none e k =
      ground (arith, elem-keys k m.bundles, none_of_empty (keys m.bundles) (ground arith) k)
