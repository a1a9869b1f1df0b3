-- ===== src/Store/Canonical/Bundle.antt =====
-- One bundle that `validateCanonicalBundles` has let pass.
use ethindexer.Common.{
  ℕ, ◌≤◌, ◌<◌, ◌≡◌, List, [], Option, some, arith, true, false, ◌||◌, ◌⊎◌, inl, inr, get_elem?,
  length, lookup, elem, Distinct, pos, eqb_ℤ→eq,
}
use native.Mathlib.Nat.{sub-zero, zero-add}
use ethindexer.Failure.{Result, ok, Result-cases}
use ethindexer.Domain.{Hash, Block, Transaction, Event, BlockBundle, uint32_size}
use ethindexer.Store.Validate.{check_transactions, check_events, check_bundle, links}
use ethindexer.Store.Validate.Transactions
use ethindexer.Store.Validate.Transactions.{hashes}
use ethindexer.Store.Validate.Events
use ethindexer.Store.Validate.Events.{log_indexes}

-- A bundle that belongs at `number`: its counts agree, and its transactions and events name the
-- block, their places and each other.
pub record IsConsistent (number : ℕ) (bundle : BlockBundle) : Type 0 where
  pub numbered : bundle.block.number ≡ number
  pub counted : bundle.block.transaction_count ≡ pos (length bundle.transactions)
  pub transactions_placed :
      (i : ℕ) (t : Transaction)
      → get_elem? bundle.transactions i ≡ some t
      → (t.block_number ≡ number) × (t.block_hash ≡ bundle.block.hash) × (t.index ≡ i)
  pub transactions_distinct : Distinct (hashes bundle.transactions)
  pub events_owned :
      (i : ℕ) (e : Event)
      → get_elem? bundle.events i ≡ some e
      → (e.block_number ≡ number)
        × (e.block_hash ≡ bundle.block.hash)
        × (length e.topics ≤ 4)
        × ((t : Transaction) × (get_elem? bundle.transactions e.transaction_index ≡ some t)
            × (t.hash ≡ e.transaction_hash))
  pub events_distinct : Distinct (log_indexes bundle.events)

-- The parts of a round that passes.
record Parts (previous : Option Block) (number : ℕ) (bundle : BlockBundle) (seen seen' : List Hash)
    : Type 0 where
  numbered : bundle.block.number ≡ number
  linked : links previous number bundle.block ≡ true
  counted : bundle.block.transaction_count ≡ pos (length bundle.transactions)
  short : length bundle.transactions < uint32_size
  positions : List (Hash × ℕ)
  transactions_ok :
      check_transactions number bundle.block.hash 0 bundle.transactions seen []
      ≡ ok (seen', positions)
  events_ok : check_events number bundle.block.hash positions bundle.events [] ≡ ok tt

module _ (previous : Option Block) (number : ℕ) (bundle : BlockBundle) (seen seen' : List Hash)
    (passed : check_bundle previous number bundle seen ≡ ok seen') where
  parts : Parts previous number bundle seen seen'
  unfolding check_bundle
  parts = elim (Result-cases transactions) [
    | inl ((s, p), e) ↦ record {
      numbered = ground arith;
      linked = ground arith;
      counted =
          ground
            (arith, eqb_ℤ→eq bundle.block.transaction_count (pos (length bundle.transactions)));
      short = ground arith;
      positions = p;
      transactions_ok = ground arith;
      events_ok = ground arith;
    }
    | inr (x, e) ↦ absurd (ground arith)
  ]
    where
      transactions : Result (List Hash × List (Hash × ℕ))
      transactions = check_transactions number bundle.block.hash 0 bundle.transactions seen []

  pub check_bundle-links : links previous number bundle.block ≡ true
  check_bundle-links = parts.linked

  pub check_bundle-seen :
      (a : Hash) → elem a seen' ≡ (elem a seen || elem a (hashes bundle.transactions))
  check_bundle-seen a =
      Transactions.transactions_seen number bundle.block.hash 0 bundle.transactions seen []
        (seen', parts.positions) a parts.transactions_ok

  pub check_bundle-fresh :
      (a : Hash) → elem a (hashes bundle.transactions) ≡ true → elem a seen ≡ false
  check_bundle-fresh a h =
      Transactions.transactions_fresh number bundle.block.hash 0 bundle.transactions seen []
        (seen', parts.positions) a parts.transactions_ok h

  -- The transaction that an event's index points at.
  event_transaction :
      (e : Event)
      → lookup e.transaction_hash parts.positions ≡ some e.transaction_index
      → (t : Transaction) × (get_elem? bundle.transactions e.transaction_index ≡ some t)
        × (t.hash ≡ e.transaction_hash)
  event_transaction e found = choose (
      Transactions.transactions_positions number bundle.block.hash 0 bundle.transactions seen []
        (seen', parts.positions) e.transaction_hash e.transaction_index parts.transactions_ok
        (omega (arith, parts.short)) found)
    where
      choose :
          (lookup e.transaction_hash [] ≡ some e.transaction_index)
            ⊎ Transactions.IsPlacedAt 0 bundle.transactions e.transaction_hash e.transaction_index
          → (t : Transaction) × (get_elem? bundle.transactions e.transaction_index ≡ some t)
            × (t.hash ≡ e.transaction_hash)
      choose (inl impossible) = cc
      choose (inr (t, at, same, _)) = (t, rw sub-zero at at, same)

  pub check_bundle-IsConsistent : IsConsistent number bundle
  check_bundle-IsConsistent = record {
    numbered = parts.numbered;
    counted = parts.counted;
    transactions_placed = λ i t at. rw zero-add at (
        Transactions.transactions_placed number bundle.block.hash 0 bundle.transactions seen []
          (seen', parts.positions) i t parts.transactions_ok (omega (arith, parts.short)) at);
    transactions_distinct =
        Transactions.transactions-Distinct number bundle.block.hash 0 bundle.transactions seen []
          (seen', parts.positions) parts.transactions_ok;
    events_owned = λ i e at.
        let owned =
          Events.events_owned number bundle.block.hash parts.positions bundle.events [] i e
            parts.events_ok at in
        (owned.0, owned.1, owned.2, event_transaction e owned.3);
    events_distinct =
        Events.events-Distinct number bundle.block.hash parts.positions bundle.events []
          parts.events_ok;
  }
