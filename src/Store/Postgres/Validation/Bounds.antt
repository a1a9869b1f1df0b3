-- ===== src/Store/Postgres/Validation/Bounds.antt =====
-- That an update which passes `validatePostgresUpdate` can be sent without a panic.
use ethindexer.Common.{
  ℕ, suc, ◌+◌, ◌≤◌, ◌≡◌, refl, inl, inr, List, [], ◌∷◌, ◌++◌, some, arith, length, get_elem?, pos,
  insert,
}
use ethindexer.Failure.{ok, >>=-eq-ok, Result-cases}
use ethindexer.Domain.{Block, Transaction, Event, BlockBundle, CanonicalUpdate}
use ethindexer.Store.Validate.{BundleMap, validate_canonical_bundles}
use ethindexer.Store.Validate.Replacement.{IsNumbered, validate_replacement-IsNumbered}
use ethindexer.Store.Canonical.Bundle.{IsConsistent}
use ethindexer.Store.Canonical.Chain.{validate-IsCanonical}
use ethindexer.Store.Memory.{store_blocks}
use ethindexer.Store.Memory.Clone.{clone_bundle_lem}
use ethindexer.Store.Memory.Update.{lookup-store_blocks, store_blocks-Distinct}
use ethindexer.Store.Postgres.Columns.{max_int64, postgres_int64, postgres_int32, postgres_count}
use ethindexer.Store.Postgres.Rows.{BlockRow, queue_block, queue_transaction, queue_event}
use ethindexer.Store.Postgres.Validation.{
  validate_postgres_block, validate_postgres_transaction, validate_transactions, validate_positions,
  validate_bundles, bundle_map, validate_postgres_update,
}
use ethindexer.Store.Postgres.Update.{
  Statement, block_statement, transaction_statement, event_statement,
}
use ethindexer.Store.Postgres.Update.Batching.{transaction_statements, event_statements, statements}

-- What is left of the checks of an update that passes.
pub record IsPassed (update : CanonicalUpdate) : Type 0 where
  pub chain_id : update.chain_id ≤ max_int64
  pub in_order : update.retain_from ≤ update.replace_from
  pub replace_from : update.replace_from ≤ max_int64
  pub numbered : IsNumbered update.replace_from update.blocks
  pub canonical : validate_canonical_bundles (bundle_map update.blocks []) ≡ ok tt
  pub bundles : validate_bundles update.blocks ≡ ok tt

pub validate_postgres_update-IsPassed :
    (update : CanonicalUpdate) → validate_postgres_update update ≡ ok tt → IsPassed update
unfolding validate_postgres_update
validate_postgres_update-IsPassed update h = record {
  chain_id = ground (arith, h);
  in_order = ground (arith, h);
  replace_from = ground (arith, h);
  numbered = validate_replacement-IsNumbered update (ground (arith, h)) (ground (arith, h));
  canonical = ground (arith, h);
  bundles = ground (arith, h);
}

bundle_map-store_blocks :
    (blocks : List BlockBundle) (m : BundleMap) → bundle_map blocks m ≡ store_blocks blocks m
unfolding bundle_map store_blocks
bundle_map-store_blocks [] m = refl
bundle_map-store_blocks (b ∷ blocks) m =
    ground (arith, clone_bundle_lem b, bundle_map-store_blocks blocks (insert b.block.number b m))

-- Every block of the update is consistent.
pub update-IsConsistent :
    (update : CanonicalUpdate) (i : ℕ) (b : BlockBundle)
    → IsPassed update
    → get_elem? update.blocks i ≡ some b
    → IsConsistent (update.replace_from + i) b
update-IsConsistent update i b passed at =
    let same = bundle_map-store_blocks update.blocks [] in
    let canonical =
      validate-IsCanonical (bundle_map update.blocks [])
        (rw same (store_blocks-Distinct update.blocks [] tt)) passed.canonical in
    canonical.consistent (update.replace_from + i) b (
      ground (
        arith,
        same,
        at,
        lookup-store_blocks update.blocks update.replace_from (update.replace_from + i) []
            passed.numbered,
      ))

queue_block_total :
    (block : Block) (count : ℕ)
    → validate_postgres_block block ≡ ok tt
    → block.transaction_count ≡ pos count
    → (row : BlockRow) × (queue_block block ≡ ok row)
unfolding validate_postgres_block queue_block postgres_int64 postgres_count
queue_block_total block count h counted = elim (Result-cases (queue_block block)) [
  | inl sent ↦ sent
  | inr (e, bad) ↦ absurd (ground (arith, bad, h, counted))
]

transaction_statements_total :
    (ts : List Transaction)
    → validate_transactions ts ≡ ok tt
    → (ss : List Statement) × (transaction_statements ts ≡ ok ss)
unfolding validate_transactions validate_postgres_transaction transaction_statements
    queue_transaction postgres_int64 postgres_int32
transaction_statements_total [] h = ([], refl)
transaction_statements_total (t ∷ ts) h =
    let (done, first, rest) = >>=-eq-ok (validate_postgres_transaction t) _ h in
    let (ss, others) = transaction_statements_total ts rest in
    elim (Result-cases (queue_transaction t)) [
      | inl (row, sent) ↦ (transaction_statement row ∷ ss, ground (arith, sent, others))
      | inr (e, bad) ↦ absurd (ground (arith, bad, first))
    ]

event_statements_total :
    (es : List Event)
    → validate_positions es ≡ ok tt
    → ((i : ℕ) (e : Event) → get_elem? es i ≡ some e → e.block_number ≤ max_int64)
    → (ss : List Statement) × (event_statements es ≡ ok ss)
unfolding validate_positions event_statements queue_event postgres_int64 postgres_int32
event_statements_total [] h below = ([], refl)
event_statements_total (x ∷ es) h below =
    let (ss, others) =
      event_statements_total es (ground (arith, h)) (λ i e at. below (suc i) e at) in
    elim (Result-cases (queue_event x)) [
      | inl (row, sent) ↦ (event_statement row ∷ ss, ground (arith, sent, others))
      | inr (e, bad) ↦ absurd (ground (arith, bad, h, below 0 x refl))
    ]

below_max :
    (block : Block) (e : Event) (n : ℕ)
    → validate_postgres_block block ≡ ok tt
    → block.number ≡ n
    → e.block_number ≡ n
    → e.block_number ≤ max_int64
unfolding validate_postgres_block
below_max block e n h number owned = ground (arith, h, number, owned)

statements_total :
    (bs : List BlockBundle)
    → validate_bundles bs ≡ ok tt
    → ((i : ℕ) (b : BlockBundle) → get_elem? bs i ≡ some b → (n : ℕ) × IsConsistent n b)
    → (ss : List Statement) × (statements bs ≡ ok ss)
unfolding validate_bundles statements
statements_total [] h consistent = ([], refl)
statements_total (b ∷ bs) h consistent =
    let (n, is) = consistent 0 b refl in
    let (done, first, h₁) = >>=-eq-ok (validate_postgres_block b.block) _ h in
    let (done₂, ts, h₂) = >>=-eq-ok (validate_transactions b.transactions) _ h₁ in
    let (done₃, es, h₃) = >>=-eq-ok (validate_positions b.events) _ h₂ in
    let (row, sent) = queue_block_total b.block (length b.transactions) first is.counted in
    let (ss₁, of_transactions) = transaction_statements_total b.transactions ts in
    let (ss₂, of_events) =
      event_statements_total b.events es
        (λ i e at. below_max b.block e n first is.numbered (is.events_owned i e at).0) in
    let (ss₃, rest) = statements_total bs h₃ (λ i c at. consistent (suc i) c at) in
    (
      block_statement row ∷ (ss₁ ++ (ss₂ ++ ss₃)),
      ground (arith, sent, of_transactions, of_events, rest),
    )

-- An update that passes `validatePostgresUpdate` is sent without a panic: each of its blocks,
-- transactions and events can be converted to the arguments of its INSERT, and so can the chain's id
-- and both ends of the range.
pub validate_postgres_update_total :
    (update : CanonicalUpdate)
    → validate_postgres_update update ≡ ok tt
    → ((ss : List Statement) × (statements update.blocks ≡ ok ss))
      × (postgres_int64 update.chain_id ≡ ok (pos update.chain_id))
      × (postgres_int64 update.replace_from ≡ ok (pos update.replace_from))
      × (postgres_int64 update.retain_from ≡ ok (pos update.retain_from))
unfolding postgres_int64
validate_postgres_update_total update h =
    let passed = validate_postgres_update-IsPassed update h in
    (
      statements_total update.blocks passed.bundles
          (λ i b at. (update.replace_from + i, update-IsConsistent update i b passed at)),
      ground (arith, passed.chain_id),
      ground (arith, passed.replace_from),
      ground (arith, passed.replace_from, passed.in_order),
    )
