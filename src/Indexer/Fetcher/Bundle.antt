-- ===== src/Indexer/Fetcher/Bundle.antt =====
-- A fetched bundle is one that the stores accept: `FetchBlock` meets `IsConsistent`.
use ethindexer.Common.{
  ℕ, ◌<◌, ◌≡◌, refl, List, [], Option, some, arith, ◌⊎◌, inl, inr, get_elem?, length, lookup, subst,
  All-get_elem?,
}
use native.Mathlib.Nat.{sub-zero, zero-add}
use ethindexer.Failure.{ok, ok_inj, >>=-eq-ok}
use ethindexer.Domain.{Hash, Transaction, Event, BlockBundle, uint32_size}
use ethindexer.Ethereum.{RawTransaction, RawBlock, RawLog}
use ethindexer.Store.Validate.Transactions.{IsPlacedAt}
use ethindexer.Store.Canonical.Bundle.{IsConsistent}
use ethindexer.Indexer.Fetcher.{
  Fetcher, given, validate_block_number, map_from, map_transactions, map_events, bundle_of,
  fetch_block,
}
use ethindexer.Indexer.Fetcher.Transactions.{mapped_placed, mapped-Distinct, mapped_positions}
use ethindexer.Indexer.Fetcher.Logs.{IsOwned, map_events_lem}

map_transactions_short :
    (f : Fetcher) (number : ℕ) (hash : Hash) (raw : List (Option RawTransaction))
    (found : List Transaction × List (Hash × ℕ))
    → map_transactions f number hash raw ≡ ok found
    → (length raw < uint32_size) × (map_from f number hash 0 raw [] ≡ ok found)
unfolding map_transactions
map_transactions_short f number hash raw found h = (ground arith, ground arith)

module _ (f : Fetcher) (number : ℕ) (block : RawBlock) (logs : List RawLog)
    (found : List Transaction × List (Hash × ℕ)) (events : List Event)
    (mapped : map_transactions f number block.hash block.transactions ≡ ok found)
    (logged : map_events number block.hash found.1 logs ≡ ok events) where
  short : length block.transactions < uint32_size
  short = (map_transactions_short f number block.hash block.transactions found mapped).0

  mapped_from : map_from f number block.hash 0 block.transactions [] ≡ ok found
  mapped_from = (map_transactions_short f number block.hash block.transactions found mapped).1

  event_transaction :
      (e : Event)
      → IsOwned number block.hash found.1 e
      → (t : Transaction) × (get_elem? found.0 e.transaction_index ≡ some t)
        × (t.hash ≡ e.transaction_hash)
  event_transaction e owned = choose (
      mapped_positions f number block.hash 0 block.transactions [] found e.transaction_hash
        e.transaction_index mapped_from (omega (arith, short)) owned.3)
    where
      choose :
          (lookup e.transaction_hash [] ≡ some e.transaction_index)
            ⊎ IsPlacedAt 0 found.0 e.transaction_hash e.transaction_index
          → (t : Transaction) × (get_elem? found.0 e.transaction_index ≡ some t)
            × (t.hash ≡ e.transaction_hash)
      choose (inl impossible) = cc
      choose (inr (t, at, same, _)) = (t, rw sub-zero at at, same)

  bundle-IsConsistent : IsConsistent number (bundle_of f number block found.0 events)
  bundle-IsConsistent = record {
    numbered = refl;
    counted = refl;
    transactions_placed = λ i t at. rw zero-add at (
        mapped_placed f number block.hash 0 block.transactions [] found i t mapped_from
          (omega (arith, short)) at);
    transactions_distinct =
        mapped-Distinct f number block.hash 0 block.transactions [] found mapped_from;
    events_owned = λ i e at.
        let owned =
          All-get_elem? (IsOwned number block.hash found.1) events i e
            (map_events_lem number block.hash found.1 logs events logged).0 at in
        (owned.0, owned.1, owned.2, event_transaction e owned);
    events_distinct = (map_events_lem number block.hash found.1 logs events logged).1;
  }

-- Every bundle that `FetchBlock` returns is consistent at the number that was asked for: counts,
-- places, hashes and events agree, in the sense in which the stores check them.
pub fetch_block-IsConsistent :
    (f : Fetcher) (number : ℕ) (bundle : BlockBundle)
    → fetch_block f number ≡ ok bundle
    → IsConsistent number bundle
unfolding fetch_block
fetch_block-IsConsistent f number bundle h =
    let (answer, _, h₁) = >>=-eq-ok (f.chain.block_by_number number) _ h in
    let (block, _, h₂) = >>=-eq-ok (given answer) _ h₁ in
    let (_, _, h₃) = >>=-eq-ok (validate_block_number block number) _ h₂ in
    let (found, mapped, h₄) =
      >>=-eq-ok (map_transactions f number block.hash block.transactions) _ h₃ in
    let (logs, _, h₅) = >>=-eq-ok (f.chain.logs_by_block_hash block.hash) _ h₄ in
    let (events, logged, h₆) = >>=-eq-ok (map_events number block.hash found.1 logs) _ h₅ in
    subst (IsConsistent number) (ok_inj (bundle_of f number block found.0 events) bundle h₆)
      (bundle-IsConsistent f number block logs found events mapped logged)
