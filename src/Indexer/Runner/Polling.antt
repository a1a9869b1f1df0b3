-- ===== src/Indexer/Runner/Polling.antt =====
-- When the polling loop ends.
use ethindexer.Common.{
  ℕ, zero, suc, ◌≡◌, ◌⊎◌, inl, inr, refl, subst, ◌∙◌, Option, none, some, arith, Option-cases,
}
use ethindexer.Failure.{Error, Result, ok, err, Context}
use ethindexer.Indexer.Syncer.{Config, Syncer}
use ethindexer.Indexer.Runner.{
  Surroundings, wait_error, wait_for, cycle_error, poll, run_checked, run_syncer, sync_with_retry,
  validate_run_config,
}

module _ {W R : Type 0} (env : Surroundings W R) (config : Config) where
  -- The context has ended, or the wait for the next cycle failed in another way.
  abbrev pub Ended : W → Error → Type 0
  Ended w e =
      (env.context w ≡ some e)
      ⊎ ((before : W) × (env.wait config.poll_interval before ≡ (w, some e)))

  wait_for-Ended :
      (ctx : Context) (x : Option Error) (w : W) (e : Error)
      → env.context (env.wait config.poll_interval w).0 ≡ ctx
      → (env.wait config.poll_interval w).1 ≡ x
      → wait_error env config ctx x ≡ some e
      → Ended (env.wait config.poll_interval w).0 e
  wait_for-Ended ctx none w e live is h = absurd (ground (arith, h))
  wait_for-Ended (some c) (some x) w e live is h = inl (ground (arith, h, live))
  wait_for-Ended none (some x) w e live is h = inr (w, ground (arith, h, is))

  -- If the loop has returned, it has ended in this way.
  abbrev EndsWell : W × Option Error → Type 0
  EndsWell (w, x) = (e : Error) → x ≡ some e → Ended w e

  abbrev wait_at : W → Option Error
  wait_at w =
      wait_error env config (env.context (env.wait config.poll_interval w).0)
        (env.wait config.poll_interval w).1

  wait-EndsWell :
      (w : W) (x : Error)
      → wait_at w ≡ some x
      → EndsWell ((env.wait config.poll_interval w).0, some x)
  wait-EndsWell w x is e same =
      wait_for-Ended (env.context (env.wait config.poll_interval w).0)
        (env.wait config.poll_interval w).1 w e refl refl (is ∙ same)

  cycle-EndsWell :
      (w : W) (r : Result R) (x : Error)
      → cycle_error env config (env.context w) r ≡ some x
      → EndsWell (w, some x)
  cycle-EndsWell w (ok result) x is e same = absurd (ground (arith, is))
  cycle-EndsWell w (err y) x is e same = inl (is ∙ same)

  poll-EndsWell : (cycles : ℕ) (w : W) → EndsWell (poll env config cycles w)
  unfolding poll wait_for
  poll-EndsWell zero w = λ e same. absurd (ground (arith, same))
  poll-EndsWell (suc cycles) w = elim (Option-cases (wait_at w)) [
    | inr (x, is) ↦ subst EndsWell (ground (arith, is)) (wait-EndsWell w x is)
    | inl waited ↦
        let at = (env.wait config.poll_interval w).0 in
        let later = sync_with_retry env config at in
        elim (Option-cases (cycle_error env config (env.context later.0) later.1)) [
          | inr (x, is) ↦
              subst EndsWell (ground (arith, waited, is)) (cycle-EndsWell later.0 later.1 x is)
          | inl goes_on ↦
              subst EndsWell (ground (arith, waited, goes_on)) (poll-EndsWell cycles later.0)
        ]
  ]

-- Once the configuration is accepted and the first synchronization has succeeded, `Run` returns
-- only because the context has ended, with its error, or because a wait failed, with that error:
-- no later synchronization that fails ends it, for any number of cycles.
pub run_syncer-Ended :
    {S W R : Type 0} (s : Syncer S) (env : Surroundings W R) (cycles : ℕ) (w : W) (result : R)
    (e : Error)
    → validate_run_config s ≡ ok tt
    → (sync_with_retry env s.config w).1 ≡ ok result
    → (run_syncer s env cycles w).1 ≡ some e
    → Ended env s.config (run_syncer s env cycles w).0 e
unfolding run_syncer run_checked
run_syncer-Ended s env cycles w result e valid first h =
    subst (EndsWell env s.config) (ground (arith, valid, first))
      (poll-EndsWell env s.config cycles (sync_with_retry env s.config w).0) e h
