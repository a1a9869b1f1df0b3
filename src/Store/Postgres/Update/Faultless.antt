-- ===== src/Store/Postgres/Update/Faultless.antt =====
-- That blocks which are inserted without an error have met no fault.
use ethindexer.Common.{
  ℕ, ◌≡◌, sym, ◌∙◌, inl, inr, List, [], ◌∷◌, ◌++◌, none, arith, length, leb, ◌==◌, Bool-cases,
  Option-cases,
}
use ethindexer.Failure.{ok, >>=-eq-ok, Context}
use ethindexer.Domain.{BlockBundle}
use ethindexer.Store.Postgres.Driver.{Driver}
use ethindexer.Store.Postgres.Tables.{Tables}
use ethindexer.Store.Postgres.Update.{
  Statement, Pending, run, queue, queue_bundles, send_canonical_batch, insert_canonical_bundles,
}
use ethindexer.Store.Postgres.Update.Batching.{
  queue_all, queue_bundles-queue_all, insert_canonical_bundles-run, statements,
}

module _ (driver : Driver) (at_batch : ℕ → Context) where
  -- What succeeds has met no fault.
  send_faultless :
      (p q : Pending)
      → send_canonical_batch driver at_batch p ≡ ok q
      → send_canonical_batch driver (λ n. none) p ≡ ok q
  unfolding send_canonical_batch
  send_faultless p q h = elim (Option-cases (at_batch p.sent)) [
    | inl fine ↦ ground (arith, h, fine)
    | inr (e, broken) ↦ elim (Bool-cases (length p.batch == 0)) [
      | inl nothing ↦ ground (arith, h, nothing)
      | inr waiting ↦ absurd (ground (arith, h, broken, waiting))
    ]
  ]

  queue_faultless :
      (s : Statement) (p q : Pending)
      → queue driver at_batch s p ≡ ok q
      → queue driver (λ n. none) s p ≡ ok q
  unfolding queue
  queue_faultless s p q h =
      let longer : Pending = record p { batch = p.batch ++ (s ∷ []) } in
      elim (Bool-cases (leb 1_000 (length (p.batch ++ (s ∷ []))))) [
        | inr short ↦ ground (arith, h, short)
        | inl full ↦ ground (arith, full, send_faultless longer q (ground (arith, h, full)))
      ]

  queue_all_faultless :
      (ss : List Statement) (p q : Pending)
      → queue_all driver at_batch ss p ≡ ok q
      → queue_all driver (λ n. none) ss p ≡ ok q
  unfolding queue_all
  queue_all_faultless [] p q h = h
  queue_all_faultless (s ∷ ss) p q h =
      let (p', queued, rest) = >>=-eq-ok (queue driver at_batch s p) _ h in
      ground (arith, queue_faultless s p p' queued, queue_all_faultless ss p' q rest)

  -- Inserting the blocks succeeds only where all their statements do, in order.
  pub insert_canonical_bundles_ran :
      (bundles : List BlockBundle) (ss : List Statement) (tables tables' : Tables)
      → statements bundles ≡ ok ss
      → insert_canonical_bundles driver at_batch bundles tables ≡ ok tables'
      → run driver ss tables ≡ ok tables'
  unfolding insert_canonical_bundles
  insert_canonical_bundles_ran bundles ss tables tables' of h =
      let start : Pending = record { batch = []; sent = 0; tables = tables } in
      let (p, queued, rest) = >>=-eq-ok (queue_bundles driver at_batch bundles start) _ h in
      let (last, sent, h₂) = >>=-eq-ok (send_canonical_batch driver at_batch p) _ rest in
      ground (
        arith,
        queue_all_faultless ss start p
            (sym (queue_bundles-queue_all driver at_batch bundles ss start of) ∙ queued),
        queue_bundles-queue_all driver (λ n. none) bundles ss start of,
        send_faultless p last sent,
        h₂,
        insert_canonical_bundles-run driver bundles ss tables of,
      )
