-- ===== src/Store/Postgres/Update/Batching.antt =====
-- That sending the statements in batches executes the same statements in the same order.
use ethindexer.Common.{
  ℕ, ◌≡◌, refl, append_nil, append_snoc, inl, inr, List, [], ◌∷◌, ◌++◌, none, true, arith, length,
  leb, ◌==◌, Bool-cases,
}
use ethindexer.Failure.{Result, ok, ◌>>=◌, >>=-eq-ok, Result-cases, Context}
use ethindexer.Domain.{Transaction, Event, BlockBundle}
use ethindexer.Store.Postgres.Rows.{queue_block, queue_transaction, queue_event}
use ethindexer.Store.Postgres.Driver.{Driver}
use ethindexer.Store.Postgres.Tables.{Tables}
use ethindexer.Store.Postgres.Update.{
  Statement, block_statement, transaction_statement, event_statement, Pending, execute, run, queue,
  queue_transactions, queue_events, queue_bundles, send_canonical_batch, insert_canonical_bundles,
}

-- The statements of an update: of each block, its own, then its transactions', then its events'.
unfoldable pub transaction_statements : List Transaction → Result (List Statement)
transaction_statements [] = ok []
transaction_statements (transaction ∷ transactions) = do
  row ← queue_transaction transaction
  rest ← transaction_statements transactions
  ok (transaction_statement row ∷ rest)

unfoldable pub event_statements : List Event → Result (List Statement)
event_statements [] = ok []
event_statements (event ∷ events) = do
  row ← queue_event event
  rest ← event_statements events
  ok (event_statement row ∷ rest)

unfoldable pub statements : List BlockBundle → Result (List Statement)
statements [] = ok []
statements (bundle ∷ bundles) = do
  row ← queue_block bundle.block
  of_transactions ← transaction_statements bundle.transactions
  of_events ← event_statements bundle.events
  rest ← statements bundles
  ok (block_statement row ∷ (of_transactions ++ (of_events ++ rest)))

module _ (driver : Driver) where
  pub run-append :
      (xs ys : List Statement) (tables : Tables)
      → run driver (xs ++ ys) tables ≡ (run driver xs tables >>= λ tables'. run driver ys tables')
  unfolding run
  run-append [] ys tables = refl
  run-append (x ∷ xs) ys tables = elim (Result-cases (execute driver x tables)) [
    | inl (tables', done) ↦ ground (arith, done, run-append xs ys tables')
    | inr (e, failed) ↦ ground (arith, failed)
  ]

  module _ (at_batch : ℕ → Context) where
    unfoldable pub queue_all : List Statement → Pending → Result Pending
    queue_all [] p = ok p
    queue_all (s ∷ ss) p = queue driver at_batch s p >>= λ p'. queue_all ss p'

    then_queue_all :
        (xs ys : List Statement) (next : Pending → Result Pending)
        → ((p : Pending) → next p ≡ queue_all ys p)
        → (p : Pending) → (queue_all xs p >>= next) ≡ queue_all (xs ++ ys) p
    unfolding queue_all
    then_queue_all [] ys next h p = h p
    then_queue_all (x ∷ xs) ys next h p = elim (Result-cases (queue driver at_batch x p)) [
      | inl (p', done) ↦ ground (arith, done, then_queue_all xs ys next h p')
      | inr (e, failed) ↦ ground (arith, failed)
    ]

    queue_transactions-queue_all :
        (ts : List Transaction) (ss : List Statement) (p : Pending)
        → transaction_statements ts ≡ ok ss
        → queue_transactions driver at_batch ts p ≡ queue_all ss p
    unfolding queue_all queue_transactions transaction_statements
    queue_transactions-queue_all [] ss p h = ground (arith, h)
    queue_transactions-queue_all (t ∷ ts) ss p h =
        let (row, queued, h₁) = >>=-eq-ok (queue_transaction t) _ h in
        let (rest, others, h₂) = >>=-eq-ok (transaction_statements ts) _ h₁ in
        elim (Result-cases (queue driver at_batch (transaction_statement row) p)) [
          | inl (p', done) ↦
              ground (arith, queued, done, h₂, queue_transactions-queue_all ts rest p' others)
          | inr (e, failed) ↦ ground (arith, queued, failed, h₂)
        ]

    queue_events-queue_all :
        (es : List Event) (ss : List Statement) (p : Pending)
        → event_statements es ≡ ok ss
        → queue_events driver at_batch es p ≡ queue_all ss p
    unfolding queue_all queue_events event_statements
    queue_events-queue_all [] ss p h = ground (arith, h)
    queue_events-queue_all (e ∷ es) ss p h =
        let (row, queued, h₁) = >>=-eq-ok (queue_event e) _ h in
        let (rest, others, h₂) = >>=-eq-ok (event_statements es) _ h₁ in
        elim (Result-cases (queue driver at_batch (event_statement row) p)) [
          | inl (p', done) ↦
              ground (arith, queued, done, h₂, queue_events-queue_all es rest p' others)
          | inr (x, failed) ↦ ground (arith, queued, failed, h₂)
        ]

    pub queue_bundles-queue_all :
        (bs : List BlockBundle) (ss : List Statement) (p : Pending)
        → statements bs ≡ ok ss
        → queue_bundles driver at_batch bs p ≡ queue_all ss p
    unfolding queue_all queue_bundles statements
    queue_bundles-queue_all [] ss p h = ground (arith, h)
    queue_bundles-queue_all (b ∷ bs) ss p h =
        let (row, queued, h₁) = >>=-eq-ok (queue_block b.block) _ h in
        let (ts, of_transactions, h₂) = >>=-eq-ok (transaction_statements b.transactions) _ h₁ in
        let (es, of_events, h₃) = >>=-eq-ok (event_statements b.events) _ h₂ in
        let (rest, others, h₄) = >>=-eq-ok (statements bs) _ h₃ in
        let of_rest : (q : Pending)
            → (queue_events driver at_batch b.events q >>= λ r. queue_bundles driver at_batch bs r)
              ≡ queue_all (es ++ rest) q =
          λ q. ground (
            arith,
            queue_events-queue_all b.events es q of_events,
            then_queue_all es rest (λ r. queue_bundles driver at_batch bs r)
                (λ r. queue_bundles-queue_all bs rest r others) q,
          ) in
        elim (Result-cases (queue driver at_batch (block_statement row) p)) [
          | inr (x, failed) ↦ ground (arith, queued, failed, h₄)
          | inl (p₁, done) ↦ ground (
            arith,
            queued,
            done,
            h₄,
            queue_transactions-queue_all b.transactions ts p₁ of_transactions,
            then_queue_all ts (es ++ rest)
                (λ q. queue_events driver at_batch b.events q >>= λ r.
                  queue_bundles driver at_batch bs r)
                of_rest p₁,
          )
        ]

  -- The tables once the statements that wait are executed.
  settle : Pending → Result Tables
  settle p = run driver p.batch p.tables

  no_fault : ℕ → Context
  no_fault n = none

  queue-settle :
      (s : Statement) (p : Pending)
      → (queue driver no_fault s p >>= settle) ≡ run driver (p.batch ++ (s ∷ [])) p.tables
  unfolding queue send_canonical_batch settle no_fault run
  queue-settle s p = elim (Bool-cases (leb 1_000 (length (p.batch ++ (s ∷ []))))) [
    | inr short ↦ ground (arith, short)
    | inl full ↦ elim (Result-cases (run driver (p.batch ++ (s ∷ [])) p.tables)) [
      | inl (tables, done) ↦ ground (arith, full, done)
      | inr (e, failed) ↦ ground (arith, full, failed)
    ]
  ]

  queue_all-settle :
      (ss : List Statement) (p : Pending)
      → (queue_all no_fault ss p >>= settle) ≡ run driver (p.batch ++ ss) p.tables
  unfolding queue_all settle
  queue_all-settle [] p = ground (arith, append_nil p.batch)
  queue_all-settle (s ∷ ss) p = elim (Result-cases (queue driver no_fault s p)) [
    | inr (e, failed) ↦ ground (
      arith,
      failed,
      queue-settle s p,
      run-append (p.batch ++ (s ∷ [])) ss p.tables,
      append_snoc p.batch ss s,
    )
    | inl (p', done) ↦ ground (
      arith,
      done,
      queue-settle s p,
      queue_all-settle ss p',
      run-append p'.batch ss p'.tables,
      run-append (p.batch ++ (s ∷ [])) ss p.tables,
      append_snoc p.batch ss s,
    )
  ]

  run_empty :
      (xs : List Statement) (tables : Tables)
      → (length xs == 0) ≡ true
      → run driver xs tables ≡ ok tables
  unfolding run
  run_empty [] tables h = refl
  run_empty (x ∷ xs) tables h = absurd (ground (arith, h))

  send-settle :
      (p : Pending) → (send_canonical_batch driver no_fault p >>= λ last. ok last.tables) ≡ settle p
  unfolding send_canonical_batch settle no_fault run
  send-settle p = elim (Bool-cases (length p.batch == 0)) [
    | inl sent ↦ ground (arith, sent, run_empty p.batch p.tables sent)
    | inr waiting ↦ elim (Result-cases (run driver p.batch p.tables)) [
      | inl (tables, done) ↦ ground (arith, waiting, done)
      | inr (e, failed) ↦ ground (arith, waiting, failed)
    ]
  ]

  -- Where every row of the blocks can be sent, inserting them in batches of at most 1,000 statements,
  -- on a database without faults, is executing all their statements in order, up to the first that
  -- breaks a constraint.
  pub insert_canonical_bundles-run :
      (bundles : List BlockBundle) (ss : List Statement) (tables : Tables)
      → statements bundles ≡ ok ss
      → insert_canonical_bundles driver (λ n. none) bundles tables ≡ run driver ss tables
  unfolding insert_canonical_bundles settle no_fault
  insert_canonical_bundles-run bundles ss tables h =
      let start : Pending = record { batch = []; sent = 0; tables = tables } in
      let all = queue_bundles-queue_all no_fault bundles ss start h in
      elim (Result-cases (queue_bundles driver no_fault bundles start)) [
        | inr (e, failed) ↦ ground (arith, failed, all, queue_all-settle ss start)
        | inl (p, done) ↦ ground (arith, done, all, queue_all-settle ss start, send-settle p)
      ]
