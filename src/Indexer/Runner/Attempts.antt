-- ===== src/Indexer/Runner/Attempts.antt =====
-- The number of attempts of a synchronization with retries, and its delays.
use ethindexer.Common.{
  ℕ, zero, suc, ◌≡◌, ◌⊎◌, inl, inr, refl, subst, Option, some, ℤ, arith, Option-cases,
}
use ethindexer.Failure.{Error, Result, ok, err, joined, sync_retries_exhausted}
use ethindexer.Indexer.Syncer.{Config}
use ethindexer.Indexer.Runner.{
  Verdict, done, stop, again, Surroundings, judged, attempt, wait_error, wait_for, retry_loop,
  attempts_of, sync_with_retry, next_retry_backoff,
}
use ethindexer.Indexer.Runner.Retries.{
  success, exhausted, Trace, IsRetried, at_once, in_wait, once_more, stop-Ending, done_result,
  again_error, wait_error-Ending,
}

Verdict-cases :
    {R : Type 0} (v : Verdict R)
    → ((r : R) × (v ≡ done r)) ⊎ (((e : Error) × (v ≡ stop e)) ⊎ ((e : Error) × (v ≡ again e)))
Verdict-cases (done r) = inl (r, refl)
Verdict-cases (stop e) = inr (inl (e, refl))
Verdict-cases (again e) = inr (inr (e, refl))

module _ {W R : Type 0} (env : Surroundings W R) (trace : Trace env) (config : Config) where
  -- What the loop returns.
  abbrev Retried : ℕ → ℤ → W → W × Result R → Type 0
  Retried limit backoff w (after, r) = IsRetried env trace config limit backoff w after r

  abbrev verdict_at : W → Verdict R
  verdict_at w = judged env config (env.context (env.sync w).0) (env.sync w).1

  is_done :
      (limit : ℕ) (backoff : ℤ) (w : W) (result : R)
      → verdict_at w ≡ done result
      → Retried limit backoff w ((env.sync w).0, ok result)
  is_done limit backoff w result is = at_once env trace config limit backoff w (ok result) (
      success w (env.sync w).0 result (
        ground (
          arith,
          done_result env trace config (env.context (env.sync w).0) (env.sync w).1 result is,
        )))

  is_stop :
      (limit : ℕ) (backoff : ℤ) (w : W) (e : Error)
      → verdict_at w ≡ stop e
      → Retried limit backoff w ((env.sync w).0, err e)
  is_stop limit backoff w e is = at_once env trace config limit backoff w (err e) (
      stop-Ending env trace config limit w (env.context (env.sync w).0) (env.sync w).1 e refl refl
        is)

  is_last :
      (backoff : ℤ) (w : W) (e : Error)
      → verdict_at w ≡ again e
      → Retried 0 backoff w ((env.sync w).0, err (joined sync_retries_exhausted e))
  is_last backoff w e is =
      let (failed, live, passes) =
        again_error env trace config (env.context (env.sync w).0) (env.sync w).1 e is in
      at_once env trace config 0 backoff w (err (joined sync_retries_exhausted e))
        (exhausted w (env.sync w).0 e (omega arith) (ground (arith, failed)) live passes)

  abbrev wait_at : ℤ → W → Option Error
  wait_at backoff w =
      wait_error env config (env.context (env.wait backoff w).0) (env.wait backoff w).1

  is_wait :
      (limit : ℕ) (backoff : ℤ) (w : W) (e : Error)
      → wait_at backoff (env.sync w).0 ≡ some e
      → Retried (suc limit) backoff w ((env.wait backoff (env.sync w).0).0, err e)
  is_wait limit backoff w e is = in_wait env trace config limit backoff w (err e) (
      wait_error-Ending env trace config (suc limit) (env.sync w).0 backoff
        (env.context (env.wait backoff (env.sync w).0).0) (env.wait backoff (env.sync w).0).1 e refl
        refl is)

  retry_loop-Retried :
      (limit : ℕ) (backoff : ℤ) (w : W)
      → Retried limit backoff w (retry_loop env config limit backoff w)
  unfolding retry_loop attempt wait_for
  retry_loop-Retried zero backoff w = elim (Verdict-cases (verdict_at w)) [
    | inl (result, is) ↦
        subst (Retried 0 backoff w) (ground (arith, is)) (is_done 0 backoff w result is)
    | inr (inl (e, is)) ↦
        subst (Retried 0 backoff w) (ground (arith, is)) (is_stop 0 backoff w e is)
    | inr (inr (e, is)) ↦ subst (Retried 0 backoff w) (ground (arith, is)) (is_last backoff w e is)
  ]
  retry_loop-Retried (suc limit) backoff w = elim (Verdict-cases (verdict_at w)) [
    | inl (result, is) ↦
        subst (Retried (suc limit) backoff w) (ground (arith, is))
          (is_done (suc limit) backoff w result is)
    | inr (inl (e, is)) ↦
        subst (Retried (suc limit) backoff w) (ground (arith, is))
          (is_stop (suc limit) backoff w e is)
    | inr (inr (e, is)) ↦ elim (Option-cases (wait_at backoff (env.sync w).0)) [
      | inr (x, failed) ↦
          subst (Retried (suc limit) backoff w) (ground (arith, is, failed))
            (is_wait limit backoff w x failed)
      | inl waited ↦
          let rest =
            retry_loop-Retried limit (next_retry_backoff backoff config.retry_max_backoff)
              (env.wait backoff (env.sync w).0).0 in
          subst (Retried (suc limit) backoff w) (ground (arith, is, waited)) (
            once_more env trace config limit backoff w
              (retry_loop env config limit (next_retry_backoff backoff config.retry_max_backoff)
                (env.wait backoff (env.sync w).0).0).0
              (retry_loop env config limit (next_retry_backoff backoff config.retry_max_backoff)
                (env.wait backoff (env.sync w).0).0).1
              rest)
    ]
  ]

-- Whatever the synchronization, the timer and the context do: a synchronization with retries makes
-- at least one attempt and at most `RetryAttempts` more, it waits between them for the delays of the
-- backoff in their order, and it ends with a success, the context's end, a permanent error, a
-- failing wait, or `ErrSyncRetriesExhausted` after the last attempt.
pub sync_with_retry-IsRetried :
    {W R : Type 0} (env : Surroundings W R) (trace : Trace env) (config : Config) (w : W)
    → IsRetried env trace config
        (attempts_of config.retry_attempts)
        config.retry_min_backoff
        w
        (sync_with_retry env config w).0
        (sync_with_retry env config w).1
unfolding sync_with_retry
sync_with_retry-IsRetried env trace config w =
    retry_loop-Retried env trace config (attempts_of config.retry_attempts) config.retry_min_backoff
      w
