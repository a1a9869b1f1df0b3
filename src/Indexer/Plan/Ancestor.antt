-- ===== src/Indexer/Plan/Ancestor.antt =====
-- The common ancestor is the highest number at which the store and the chain agree.
use ethindexer.Common.{
  ℕ, zero, suc, ◌-◌, ◌≤◌, ◌<◌, ◌≡◌, ◌≢◌, ◌⊎◌, subst, inl, inr, some, ◌==◌, arith, ◌∙◌, ap,
  Bool-cases, ==→eq,
}
use Prim.Native.Nat.{min}
use ethindexer.Failure.{Result, ok, Result-cases}
use ethindexer.Domain.{Hash, ChainTip, uint64_size}
use ethindexer.Ethereum.{Reader}
use ethindexer.Store.{IndexStore}
use ethindexer.Indexer.Syncer.{sub64}
use ethindexer.Indexer.Plan.{
  Round, agrees, missing, differs, chain_hash, stored_hash, compare_at, ancestor_loop,
  common_ancestor, before,
}

module _ {S : Type 0} (store : IndexStore S) (state : S) (chain : Reader)
    (stored_tip head : ChainTip) where
  abbrev at : ℕ → Result Round
  at = compare_at store state chain stored_tip head

  -- A round agrees on a tip that both sides have.
  pub compare_at-agrees :
      (number : ℕ) (tip : ChainTip)
      → compare_at store state chain stored_tip head number ≡ ok (agrees tip)
      → (tip.number ≡ number)
        × (stored_hash store state chain stored_tip number ≡ ok tip.hash)
        × (chain_hash chain head number ≡ ok tip.hash)
  unfolding compare_at
  compare_at-agrees number tip h = ground arith

  -- A round differs on two hashes.
  pub compare_at-differs :
      (number : ℕ)
      → compare_at store state chain stored_tip head number ≡ ok differs
      → (a b : Hash) → stored_hash store state chain stored_tip number ≡ ok a
      → chain_hash chain head number ≡ ok b
      → a ≢ b
  unfolding compare_at
  compare_at-differs number h a b sa cb = ground arith

  -- What the loop has found: a tip at which both sides agree, and above it they differ.
  record IsHighest (low number : ℕ) (tip : ChainTip) : Type 0 where
    above_low : low ≤ tip.number
    below_start : tip.number ≤ number
    agreed : at tip.number ≡ ok (agrees tip)
    differ_above : (k : ℕ) → tip.number < k → k ≤ number → at k ≡ ok differs

  found_here :
      (low number : ℕ) (t tip : ChainTip)
      → low ≤ number
      → t ≡ tip
      → at number ≡ ok (agrees t)
      → IsHighest low number tip
  found_here low number t tip le same e =
      let place : tip.number ≡ number = rw (← same) ((compare_at-agrees number t e).0) in
      record {
        above_low = omega arith;
        below_start = omega arith;
        agreed = ap at place ∙ e ∙ ap (λ z. ok (agrees z)) same;
        differ_above = λ k above below. absurd (omega arith);
      }

  loop_found :
      (steps number : ℕ) (tip : ChainTip)
      → number < uint64_size
      → steps ≤ number
      → ancestor_loop store state chain stored_tip head steps number ≡ ok (some tip)
      → IsHighest (number - steps) number tip
  unfolding ancestor_loop
  loop_found zero number tip small le h = elim (Result-cases (at number)) [
    | inl (agrees t, e) ↦ found_here _ number t tip (omega arith) (ground arith) e
    | inl (missing, e) ↦ absurd (ground arith)
    | inl (differs, e) ↦ absurd (ground arith)
    | inr (x, e) ↦ absurd (ground arith)
  ]
  loop_found (suc steps) number tip small le h = elim (Result-cases (at number)) [
    | inl (agrees t, e) ↦ found_here _ number t tip (omega arith) (ground arith) e
    | inl (missing, e) ↦ absurd (ground arith)
    | inl (differs, e) ↦
        let down : before number ≡ number - 1 = ground arith in
        let below =
          loop_found steps (before number) tip (omega arith) (omega arith) (ground arith) in
        record {
          above_low = omega (arith, below.above_low);
          below_start = omega (arith, below.below_start);
          agreed = below.agreed;
          differ_above = λ k above le'. elim (Bool-cases (k == number)) [
            | inl here ↦ rw (==→eq k number here) e
            | inr other ↦ below.differ_above k above (ground arith)
          ];
        }
    | inr (x, e) ↦ absurd (ground arith)
  ]

  pub common_ancestor_found :
      (retain_from : ℕ) (tip : ChainTip)
      → stored_tip.number < uint64_size
      → retain_from ≤ min stored_tip.number head.number
      → common_ancestor store state chain stored_tip head retain_from ≡ ok (some tip)
      → (retain_from ≤ tip.number)
        × (tip.number ≤ min stored_tip.number head.number)
        × (stored_hash store state chain stored_tip tip.number ≡ ok tip.hash)
        × (chain_hash chain head tip.number ≡ ok tip.hash)
        × ((k : ℕ)
            → tip.number < k
            → k ≤ min stored_tip.number head.number
            → (a b : Hash) → stored_hash store state chain stored_tip k ≡ ok a
            → chain_hash chain head k ≡ ok b
            → a ≢ b)
  unfolding common_ancestor
  common_ancestor_found retain_from tip small low h =
      let start = min stored_tip.number head.number in
      let steps : sub64 start retain_from ≡ start - retain_from = ground arith in
      let top =
        loop_found (start - retain_from) start tip (omega arith) (omega arith) (rw steps at h) in
      let agreed = compare_at-agrees tip.number tip top.agreed in
      (
        omega (arith, top.above_low),
        top.below_start,
        agreed.1,
        agreed.2,
        λ k above below. compare_at-differs k (top.differ_above k above below),
      )

  -- Both sides have a hash at the number.
  abbrev pub IsKnown : ℕ → Type 0
  IsKnown number =
      (a : Hash) × (b : Hash) × (stored_hash store state chain stored_tip number ≡ ok a)
      × (chain_hash chain head number ≡ ok b)

  compare_at-same :
      (number : ℕ) (hash : Hash)
      → stored_hash store state chain stored_tip number ≡ ok hash
      → chain_hash chain head number ≡ ok hash
      → at number ≡ ok (agrees (record { number = number; hash = hash }))
  unfolding compare_at
  compare_at-same number hash sa cb = ground (arith, sa, cb)

  compare_at-known :
      (number : ℕ)
      → IsKnown number
      → (at number ≡ ok differs)
        ⊎ ((hash : Hash) × (at number ≡ ok (agrees (record { number = number; hash = hash }))))
  unfolding compare_at
  compare_at-known number (a, b, sa, cb) = elim (Bool-cases (a == b)) [
    | inl same ↦ inr (a, ground (arith, sa, cb, same))
    | inr other ↦ inl (ground (arith, sa, cb, other))
  ]

  abbrev Meets : ℕ → Hash → ℕ → Type 0
  Meets common hash number = at number ≡ ok (agrees (record { number = common; hash = hash }))

  -- The loop goes down to a number at which both sides agree.
  loop_meets :
      (steps number common : ℕ) (hash : Hash)
      → number < uint64_size
      → steps ≤ number
      → number - steps ≤ common
      → common ≤ number
      → at common ≡ ok (agrees (record { number = common; hash = hash }))
      → ((k : ℕ) → common < k → k ≤ number → IsKnown k)
      → (tip : ChainTip) × (ancestor_loop store state chain stored_tip head steps number
          ≡ ok (some tip))
        × (common ≤ tip.number)
  unfolding ancestor_loop
  loop_meets zero number common hash small le low high same known =
      let here : common ≡ number = omega (arith, low, high) in
      (
        record { number = common; hash = hash },
        ground (arith, subst (Meets common hash) here same),
        omega arith,
      )
  loop_meets (suc steps) number common hash small le low high same known =
      elim (Bool-cases (common == number)) [
        | inl here ↦ (
          record { number = common; hash = hash },
          ground (arith, subst (Meets common hash) (==→eq common number here) same),
          omega arith,
        )
        | inr lower ↦ elim (compare_at-known number (known number (ground arith) (omega arith))) [
          | inr (first, agreed) ↦
              (record { number = number; hash = first }, ground (arith, agreed), high)
          | inl other ↦
              let down : before number ≡ number - 1 = ground arith in
              let (tip, found, above) =
                loop_meets steps (before number) common hash (omega arith) (omega arith)
                  (omega arith) (ground (arith, lower, down, high)) same
                  (λ k over under. known k over (omega arith)) in
              (tip, ground (arith, other, found), above)
        ]
      ]

  -- If the stored tip's number is a uint64, a number from `retainFrom` up to the lower of the two
  -- tips has one hash on both sides, and both sides have a hash at every number above it up to the
  -- lower tip, then `commonAncestor` returns a block that is no lower than that number and not above
  -- the lower tip, whose hash both sides have, and at every number above it up to the lower tip the
  -- hashes differ.
  pub common_ancestor_highest :
      (retain_from common : ℕ) (hash : Hash)
      → stored_tip.number < uint64_size
      → retain_from ≤ common
      → common ≤ min stored_tip.number head.number
      → stored_hash store state chain stored_tip common ≡ ok hash
      → chain_hash chain head common ≡ ok hash
      → ((k : ℕ) → common < k → k ≤ min stored_tip.number head.number → IsKnown k)
      → (tip : ChainTip) × (common_ancestor store state chain stored_tip head retain_from
          ≡ ok (some tip))
        × (common ≤ tip.number)
        × (tip.number ≤ min stored_tip.number head.number)
        × (stored_hash store state chain stored_tip tip.number ≡ ok tip.hash)
        × (chain_hash chain head tip.number ≡ ok tip.hash)
        × ((k : ℕ)
            → tip.number < k
            → k ≤ min stored_tip.number head.number
            → (a b : Hash) → stored_hash store state chain stored_tip k ≡ ok a
            → chain_hash chain head k ≡ ok b
            → a ≢ b)
  unfolding common_ancestor
  common_ancestor_highest retain_from common hash small low high sa cb known =
      let start = min stored_tip.number head.number in
      let steps : sub64 start retain_from ≡ start - retain_from = ground arith in
      let met : (tip : ChainTip) × (common_ancestor store state chain stored_tip head retain_from
            ≡ ok (some tip))
          × (common ≤ tip.number) =
        rw steps (
          loop_meets (start - retain_from) start common hash (omega arith) (omega arith)
            (omega arith) high (compare_at-same common hash sa cb) known) in
      let rest = common_ancestor_found retain_from met.0 small (omega arith) met.1 in
      (met.0, met.1, met.2, rest.1, rest.2, rest.3, rest.4)
