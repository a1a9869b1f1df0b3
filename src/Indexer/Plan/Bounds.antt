-- ===== src/Indexer/Plan/Bounds.antt =====
-- What every plan of `replacementStart` guarantees.
use ethindexer.Common.{
  ℕ, ◌+◌, ◌≤◌, ◌<◌, ◌≡◌, ◌⊎◌, inl, inr, Option, none, some, false, ltb, ◌==◌, ◌&&◌, ◌||◌, arith,
  refl, ap, Bool-cases,
}
use ethindexer.Failure.{ok, >>=-eq-ok}
use ethindexer.Domain.{ChainTip, uint64_size}
use ethindexer.Ethereum.{Reader}
use ethindexer.Store.{IndexStore}
use ethindexer.Indexer.Syncer.{ReplacementPlan}
use ethindexer.Indexer.Plan.{
  chain_hash, stored_hash, common_ancestor, plan_after, replacement_start,
}
use ethindexer.Indexer.Plan.Ancestor.{common_ancestor_found}

module _ {S : Type 0} (store : IndexStore S) (state : S) (chain : Reader) (head : ChainTip) where
  -- A block at which the store and the chain agree.
  pub record IsCommon (stored_tip ancestor : ChainTip) : Type 0 where
    pub in_store : stored_hash store state chain stored_tip ancestor.number ≡ ok ancestor.hash
    pub in_chain : chain_hash chain head ancestor.number ≡ ok ancestor.hash

  pub record IsSound (stored : Option ChainTip) (retain_from : ℕ) (plan : ReplacementPlan)
      : Type 0 where
    pub after_retained : retain_from ≤ plan.from
    pub up_to_head : plan.from ≤ head.number + 1
    pub fits : plan.from < uint64_size
    -- What is kept ends in a common block, or nothing is kept.
    pub kept :
        (plan.from ≡ retain_from)
        ⊎ ((tip ancestor : ChainTip) × (stored ≡ some tip)
            × (plan.from ≡ ancestor.number + 1)
            × IsCommon tip ancestor)
    -- Nothing is fetched only if the stored tip is the head.
    pub current_tip : plan.from ≡ head.number + 1 → stored ≡ some head

  module _ (stored_tip : ChainTip) (retain_from : ℕ) (plan : ReplacementPlan)
      (low : retain_from ≤ head.number) (small : head.number < uint64_size)
      (not_above : stored_tip.number ≤ head.number) (not_below : retain_from ≤ stored_tip.number)
      (changed : (stored_tip.number == head.number && stored_tip.hash == head.hash) ≡ false) where
    -- A common block at both tips would make them one.
    at_both_tips :
        (ancestor : ChainTip)
        → ancestor.number ≡ head.number
        → ancestor.number ≡ stored_tip.number
        → IsCommon stored_tip ancestor
        → ⊥
    unfolding stored_hash chain_hash
    at_both_tips ancestor at_head at_stored both = ground (arith, both.in_store, both.in_chain)

    after_ancestor :
        (found : Option ChainTip)
        → common_ancestor store state chain stored_tip head retain_from ≡ ok found
        → plan_after stored_tip retain_from found ≡ ok plan
        → IsSound (some stored_tip) retain_from plan
    after_ancestor none e h = record {
      after_retained = ground arith;
      up_to_head = ground arith;
      fits = ground arith;
      kept = inl (ground arith);
      current_tip = λ p. absurd (ground arith);
    }
    after_ancestor (some ancestor) e h =
        let (above, below, in_store, in_chain, _) =
          common_ancestor_found store state chain stored_tip head retain_from ancestor (omega arith)
            (omega arith) e in
        let next : plan.from ≡ ancestor.number + 1 = ground arith in
        record {
          after_retained = omega arith;
          up_to_head = omega arith;
          fits = ground arith;
          kept = inr (
            stored_tip,
            ancestor,
            refl,
            next,
            record { in_store = in_store; in_chain = in_chain },
          );
          current_tip = λ p. absurd (
              at_both_tips ancestor (omega arith) (omega arith)
                (record { in_store = in_store; in_chain = in_chain }));
        }

  head-IsCommon : (tip : ChainTip) → tip ≡ head → IsCommon tip head
  unfolding stored_hash chain_hash
  head-IsCommon tip one = record { in_store = ground arith; in_chain = ground arith }

  -- If `retainFrom` is not above the head, whose number is a uint64, every plan of
  -- `replacementStart` starts in the range from `retainFrom` to one past the head, keeps nothing
  -- or ends what it keeps in a block that the store and the chain share, and fetches nothing only
  -- if the stored tip is the head.
  pub replacement_start-IsSound :
      (stored : Option ChainTip) (retain_from : ℕ) (plan : ReplacementPlan)
      → retain_from ≤ head.number
      → head.number < uint64_size
      → replacement_start store state chain stored head retain_from ≡ ok plan
      → IsSound stored retain_from plan
  unfolding replacement_start
  replacement_start-IsSound none retain_from plan low small h = record {
    after_retained = ground arith;
    up_to_head = ground arith;
    fits = ground arith;
    kept = inl (ground arith);
    current_tip = λ p. absurd (ground arith);
  }
  replacement_start-IsSound (some tip) retain_from plan low small h =
      elim (Bool-cases (ltb head.number tip.number || ltb tip.number retain_from)) [
        | inl outside ↦
            let here : plan.from ≡ retain_from = ground arith in
            record {
              after_retained = omega arith;
              up_to_head = omega arith;
              fits = ground arith;
              kept = inl here;
              current_tip = λ p. absurd (omega arith);
            }
        | inr inside ↦ elim (Bool-cases (tip.number == head.number && tip.hash == head.hash)) [
          | inl same ↦
              let next : plan.from ≡ head.number + 1 = ground arith in
              let one : tip ≡ head = ground arith in
              record {
                after_retained = omega arith;
                up_to_head = omega arith;
                fits = ground arith;
                kept = inr (tip, head, refl, next, head-IsCommon tip one);
                current_tip = λ p. ap some one;
              }
          | inr changed ↦
              let not_above : tip.number ≤ head.number = ground arith in
              let not_below : retain_from ≤ tip.number = ground arith in
              let (found, searched, planned) =
                >>=-eq-ok (common_ancestor store state chain tip head retain_from)
                  (plan_after tip retain_from) (ground arith) in
              after_ancestor tip retain_from plan low small not_above not_below changed found
                searched planned
        ]
      ]
