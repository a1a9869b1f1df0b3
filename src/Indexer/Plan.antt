-- ===== src/Indexer/Plan.antt =====
-- internal/indexer/syncer.go: where a synchronization starts to replace blocks.
pub mod Ancestor
pub mod Bounds
use ethindexer.Common.{
  ℕ, zero, suc, ◌+◌, ◌-◌, ◌%◌, Option, none, some, Bool, true, false, ◌&&◌, ◌||◌, ltb, ◌==◌,
  if◌then◌else◌, pos,
}
use Prim.Native.Nat.{min}
use ethindexer.Failure.{
  Error, Result, ok, err, ◌>>=◌, ◌>>◌, guard, matches, not_found, inconsistent_block_data,
}
use ethindexer.Domain.{Hash, ChainTip, uint64_size}
use ethindexer.Ethereum.{Header, Reader}
use ethindexer.Store.{IndexStore}
use ethindexer.Indexer.Syncer.{
  SyncMode, initial_load, current, append, full_reload, reorg, ReorgResult, ReplacementPlan, sub64,
  present, valid_header_number,
}

-- `chainHash`: the hash that the chain has at a number.
unfoldable pub chain_hash : Reader → ChainTip → ℕ → Result Hash
chain_hash chain head number = if number == head.number then ok head.hash else (do
  answer ← chain.header_by_number (some (pos number))
  header ← present answer
  actual ← valid_header_number header
  guard (actual == number) inconsistent_block_data
  ok header.hash)

abbrev is_not_found : Error → Bool
is_not_found not_found = true
is_not_found _ = false

-- What one round of the loop of `commonAncestor` finds.
pub data Round : Type 0 where
  agrees : ChainTip → Round
  missing differs : Round

-- The new number of a round is decremented on uint64.
abbrev pub before : ℕ → ℕ
before number = sub64 number 1

-- The plan once the ancestor is known.
abbrev pub plan_after : ChainTip → ℕ → Option ChainTip → Result ReplacementPlan
plan_after stored_tip retain_from none = ok (record {
  from = retain_from;
  mode = reorg;
  reorg = some (record {
    common_ancestor = none;
    replaced_from = retain_from;
    replaced_to = stored_tip.number;
    replaced_block_count = (sub64 stored_tip.number retain_from + 1) % uint64_size;
  });
})
plan_after stored_tip retain_from (some ancestor) =
    if ancestor.number == uint64_size - 1
    then err inconsistent_block_data
    else (if ancestor.number == stored_tip.number
        then ok (record { from = ancestor.number + 1; mode = append; reorg = none })
        else (let replace_from = ancestor.number + 1 in
            ok (record {
              from = replace_from;
              mode = reorg;
              reorg = some (record {
                common_ancestor = some ancestor;
                replaced_from = replace_from;
                replaced_to = stored_tip.number;
                replaced_block_count = (sub64 stored_tip.number replace_from + 1) % uint64_size;
              });
            })))

module _ {S : Type 0} (store : IndexStore S) (state : S) (chain : Reader) where
  -- `storedHash`: the hash that the store has at a number.
  unfoldable pub stored_hash : ChainTip → ℕ → Result Hash
  stored_hash stored_tip number =
      if number == stored_tip.number then ok stored_tip.hash else store.canonical_hash number state

  unfoldable pub compare_at : ChainTip → ChainTip → ℕ → Result Round
  compare_at stored_tip head number = elim (stored_hash stored_tip number) [
    | err e ↦ if matches is_not_found e then ok missing else err e
    | ok stored ↦ do
      chained ← chain_hash chain head number
      ok (if stored == chained then agrees (record { number = number; hash = stored }) else differs)
  ]

  -- The loop of `commonAncestor`. `steps` is how often `number` is still decremented before it is
  -- `retainFrom`, so the exit at `number == retainFrom` is the case of no steps.
  unfoldable pub ancestor_loop : ChainTip → ChainTip → ℕ → ℕ → Result (Option ChainTip)
  ancestor_loop stored_tip head zero number = do
    round ← compare_at stored_tip head number
    elim round [ agrees tip ↦ ok (some tip) | missing ↦ ok none | differs ↦ ok none ]
  ancestor_loop stored_tip head (suc steps) number = do
    round ← compare_at stored_tip head number
    elim round [
      | agrees tip ↦ ok (some tip)
      | missing ↦ ok none
      | differs ↦ ancestor_loop stored_tip head steps (before number)
    ]

  unfoldable pub common_ancestor : ChainTip → ChainTip → ℕ → Result (Option ChainTip)
  common_ancestor stored_tip head retain_from =
      let start = min stored_tip.number head.number in
      ancestor_loop stored_tip head (sub64 start retain_from) start

  unfoldable pub replacement_start : Option ChainTip → ChainTip → ℕ → Result ReplacementPlan
  replacement_start none head retain_from =
      ok (record { from = retain_from; mode = initial_load; reorg = none })
  replacement_start (some stored_tip) head retain_from =
      if ltb head.number stored_tip.number || ltb stored_tip.number retain_from
      then ok (record { from = retain_from; mode = full_reload; reorg = none })
      else (if stored_tip.number == head.number && stored_tip.hash == head.hash
          then (if head.number == uint64_size - 1
              then err inconsistent_block_data
              else ok (record { from = head.number + 1; mode = current; reorg = none }))
          else (do
            ancestor ← common_ancestor stored_tip head retain_from
            plan_after stored_tip retain_from ancestor))
