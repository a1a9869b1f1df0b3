-- ===== src/Store/Postgres/Update/Contents.antt =====
-- The blocks that a write of the PostgreSQL store leaves, number by number.
use ethindexer.Common.{
  ℕ, ◌+◌, ◌-◌, ◌≡◌, inl, inr, List, [], ◌∷◌, ◌++◌, Option, none, some, Bool, not, arith, get_elem?,
  get_elem?-cons, ltb, ◌==◌, if◌then◌else◌, filter_by, ℤ, pos, eqb_ℤ, eqb_ℤ→eq, Bytes, Bool-cases,
  subst, sym, ◌∙◌, ap,
}
use ethindexer.Failure.{ok, >>=-eq-ok, Result-cases, ok_inj}
use ethindexer.Domain.{Transaction, Event, BlockBundle}
use ethindexer.Store.Validate.Replacement.{IsNumbered}
use ethindexer.Store.Postgres.Columns.{hash_bytes, postgres_int64, max_int64}
use ethindexer.Store.Postgres.Rows.{BlockRow, queue_block, queue_transaction, queue_event}
use ethindexer.Store.Postgres.Driver.{Driver}
use ethindexer.Store.Postgres.Tables.{
  Tables, insert_block, insert_transaction, insert_event, delete_canonical_range, in_range,
  find_row, has_number, select_hash,
}
use ethindexer.Store.Postgres.Update.{Statement, block_statement, run}
use ethindexer.Store.Postgres.Update.Batching.{
  transaction_statements, event_statements, statements, run-append,
}

find_row-filter_by :
    (gone : ℤ → Bool) (number : ℤ) (rows : List BlockRow)
    → find_row (has_number number) (filter_by (λ row. not (gone row.number)) rows)
      ≡ (if gone number then none else find_row (has_number number) rows)
find_row-filter_by gone number [] = ground arith
find_row-filter_by gone number (row ∷ rows) = elim (Bool-cases (eqb_ℤ row.number number)) [
  | inr other ↦ ground (arith, other, find_row-filter_by gone number rows)
  | inl same ↦
      ground (arith, same, eqb_ℤ→eq row.number number same, find_row-filter_by gone number rows)
]

-- The range that `deleteCanonicalRangeQuery` deletes is empty afterwards, and the rest is as before.
pub select_hash-delete_canonical_range :
    (replace_from retain_from number : ℕ) (tables : Tables)
    → select_hash (pos number) (delete_canonical_range (pos replace_from) (pos retain_from) tables)
      ≡ (if in_range (pos replace_from) (pos retain_from) (pos number)
          then none
          else select_hash (pos number) tables)
unfolding select_hash delete_canonical_range
select_hash-delete_canonical_range replace_from retain_from number tables = ground (
  arith,
  find_row-filter_by (in_range (pos replace_from) (pos retain_from)) (pos number) tables.blocks,
)

-- The hash of the block that stands at a number, in `blocks` numbered upwards from `from`.
abbrev pub hash_over : ℕ → List BlockBundle → ℕ → Option Bytes → Option Bytes
hash_over from blocks number old =
    if ltb number from then old else elim (get_elem? blocks (number - from)) [
      | none ↦ old
      | some bundle ↦ some (hash_bytes bundle.block.hash)
    ]

hash_over-cons :
    (from : ℕ) (bundle : BlockBundle) (rest : List BlockBundle) (number : ℕ) (old : Option Bytes)
    → bundle.block.number ≡ from
    → hash_over
        (from + 1)
        rest
        number
        (if number == bundle.block.number then some (hash_bytes bundle.block.hash) else old)
      ≡ hash_over from (bundle ∷ rest) number old
hash_over-cons from bundle rest number old here =
    ground (arith, here, get_elem?-cons bundle rest (number - from))

same_hash :
    (k : ℕ) (t t' : Tables) → t'.blocks ≡ t.blocks → select_hash (pos k) t' ≡ select_hash (pos k) t
unfolding select_hash
same_hash k t t' same = ground (arith, same)

module _ (driver : Driver) where
  transactions_keep_blocks :
      (ts : List Transaction) (ss : List Statement) (t t' : Tables)
      → transaction_statements ts ≡ ok ss
      → run driver ss t ≡ ok t'
      → t'.blocks ≡ t.blocks
  unfolding transaction_statements run insert_transaction
  transactions_keep_blocks [] ss t t' of ran = ground (arith, of, ran)
  transactions_keep_blocks (x ∷ ts) ss t t' of ran =
      let (row, sent, of₁) = >>=-eq-ok (queue_transaction x) _ of in
      let (rest, others, of₂) = >>=-eq-ok (transaction_statements ts) _ of₁ in
      elim (Result-cases (insert_transaction driver row t)) [
        | inr (e, failed) ↦ absurd (ground (arith, ran, of₂, failed))
        | inl (t₁, inserted) ↦ ground (
          arith,
          inserted,
          transactions_keep_blocks ts rest t₁ t' others (ground (arith, ran, of₂, inserted)),
        )
      ]

  events_keep_blocks :
      (es : List Event) (ss : List Statement) (t t' : Tables)
      → event_statements es ≡ ok ss
      → run driver ss t ≡ ok t'
      → t'.blocks ≡ t.blocks
  unfolding event_statements run insert_event
  events_keep_blocks [] ss t t' of ran = ground (arith, of, ran)
  events_keep_blocks (x ∷ es) ss t t' of ran =
      let (row, sent, of₁) = >>=-eq-ok (queue_event x) _ of in
      let (rest, others, of₂) = >>=-eq-ok (event_statements es) _ of₁ in
      elim (Result-cases (insert_event row t)) [
        | inr (e, failed) ↦ absurd (ground (arith, ran, of₂, failed))
        | inl (t₁, inserted) ↦ ground (
          arith,
          inserted,
          events_keep_blocks es rest t₁ t' others (ground (arith, ran, of₂, inserted)),
        )
      ]

  insert_block-select_hash :
      (b : BlockBundle) (row : BlockRow) (k : ℕ) (t t' : Tables)
      → queue_block b.block ≡ ok row
      → insert_block driver row t ≡ ok t'
      → select_hash (pos k) t'
        ≡ (if k == b.block.number then some (hash_bytes b.block.hash) else select_hash (pos k) t)
  unfolding insert_block select_hash queue_block postgres_int64
      ethindexer.Store.Postgres.Columns.postgres_count
  insert_block-select_hash b row k t t' sent inserted = ground (arith, sent, inserted)

  run_nothing :
      (from : ℕ) (ss : List Statement) (k : ℕ) (t t' : Tables)
      → statements [] ≡ ok ss
      → run driver ss t ≡ ok t'
      → select_hash (pos k) t' ≡ hash_over from [] k (select_hash (pos k) t)
  unfolding statements run
  run_nothing from ss k t t' of ran = ground (arith, of, ran)

  -- The tables between the statements of a block, its transactions, its events and the rest.
  run_parts :
      (row : BlockRow) (ts es rest : List Statement) (t t' : Tables)
      → run driver (block_statement row ∷ (ts ++ (es ++ rest))) t ≡ ok t'
      → (t₁ : Tables) × (t₂ : Tables) × (t₃ : Tables) × (insert_block driver row t ≡ ok t₁)
        × (run driver ts t₁ ≡ ok t₂)
        × (run driver es t₂ ≡ ok t₃)
        × (run driver rest t₃ ≡ ok t')
  unfolding run
  run_parts row ts es rest t t' ran =
      let (t₁, inserted, ran₁) = >>=-eq-ok (insert_block driver row t) _ ran in
      let (t₂, inserted₂, ran₂) =
        >>=-eq-ok (run driver ts t₁) _ (sym (run-append driver ts (es ++ rest) t₁) ∙ ran₁) in
      let (t₃, inserted₃, ran₃) =
        >>=-eq-ok (run driver es t₂) _ (sym (run-append driver es rest t₂) ∙ ran₂) in
      (t₁, t₂, t₃, inserted, inserted₂, inserted₃, ran₃)

  bundle_hash :
      (b : BlockBundle) (row : BlockRow) (ts es : List Statement) (k : ℕ) (t t₁ t₂ t₃ : Tables)
      → queue_block b.block ≡ ok row
      → transaction_statements b.transactions ≡ ok ts
      → event_statements b.events ≡ ok es
      → insert_block driver row t ≡ ok t₁
      → run driver ts t₁ ≡ ok t₂
      → run driver es t₂ ≡ ok t₃
      → select_hash (pos k) t₃
        ≡ (if k == b.block.number then some (hash_bytes b.block.hash) else select_hash (pos k) t)
  bundle_hash b row ts es k t t₁ t₂ t₃ sent of_transactions of_events in₁ in₂ in₃ =
      same_hash k t₂ t₃ (events_keep_blocks b.events es t₂ t₃ of_events in₃)
      ∙ same_hash k t₁ t₂ (transactions_keep_blocks b.transactions ts t₁ t₂ of_transactions in₂)
      ∙ insert_block-select_hash b row k t t₁ sent in₁

  -- The statements of the first block and of the rest.
  statements_parts :
      (b : BlockBundle) (bs : List BlockBundle) (ss : List Statement)
      → statements (b ∷ bs) ≡ ok ss
      → (row : BlockRow) × (ts : List Statement) × (es : List Statement) × (rest : List Statement)
        × (queue_block b.block ≡ ok row)
        × (transaction_statements b.transactions ≡ ok ts)
        × (event_statements b.events ≡ ok es)
        × (statements bs ≡ ok rest)
        × (block_statement row ∷ (ts ++ (es ++ rest)) ≡ ss)
  unfolding statements
  statements_parts b bs ss of =
      let (row, sent, of₁) = >>=-eq-ok (queue_block b.block) _ of in
      let (ts, of_transactions, of₂) = >>=-eq-ok (transaction_statements b.transactions) _ of₁ in
      let (es, of_events, of₃) = >>=-eq-ok (event_statements b.events) _ of₂ in
      let (rest, others, of₄) = >>=-eq-ok (statements bs) _ of₃ in
      (row, ts, es, rest, sent, of_transactions, of_events, others, ok_inj _ ss of₄)

  -- The hashes after the statements of numbered blocks.
  pub run-hash_over :
      (bs : List BlockBundle) (from : ℕ) (ss : List Statement) (k : ℕ) (t t' : Tables)
      → IsNumbered from bs
      → statements bs ≡ ok ss
      → run driver ss t ≡ ok t'
      → select_hash (pos k) t' ≡ hash_over from bs k (select_hash (pos k) t)
  run-hash_over [] from ss k t t' numbered of ran = run_nothing from ss k t t' of ran
  run-hash_over (b ∷ bs) from ss k t t' (here, more) of ran =
      let (row, ts, es, rest, sent, of_transactions, of_events, others, is) =
        statements_parts b bs ss of in
      let (t₁, t₂, t₃, in₁, in₂, in₃, last) =
        run_parts row ts es rest t t' (subst (λ l. run driver l t ≡ ok t') (sym is) ran) in
      run-hash_over bs (from + 1) rest k t₃ t' more others last
      ∙ ap (hash_over (from + 1) bs k)
          (bundle_hash b row ts es k t t₁ t₂ t₃ sent of_transactions of_events in₁ in₂ in₃)
      ∙ hash_over-cons from b bs k (select_hash (pos k) t) here
