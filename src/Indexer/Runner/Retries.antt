-- ===== src/Indexer/Runner/Retries.antt =====
-- How the retries of one synchronization end.
use ethindexer.Common.{
  ℕ, suc, ◌+◌, ◌≤◌, ◌≡◌, refl, ap, ◌∙◌, List, [], ◌∷◌, ◌++◌, Option, none, some, true, false, ℤ,
  arith,
}
use ethindexer.Failure.{Error, Result, ok, err, Context, joined, sync_retries_exhausted}
use ethindexer.Indexer.Syncer.{Config}
use ethindexer.Indexer.Runner.{
  done, stop, again, Surroundings, judged, wait_error, is_permanent_sync_error, next_retry_backoff,
}
use ethindexer.Indexer.Runner.Backoff.{delays}

module _ {W R : Type 0} (env : Surroundings W R) where
  -- How a synchronization with up to `limit` retries ends after `tried` attempts.
  pub data Ending (limit tried : ℕ) : W → Result R → Type 0 where
    -- the last attempt succeeded
    success :
        (before after : W) (result : R)
        → env.sync before ≡ (after, ok result)
        → Ending limit tried after (ok result)
    -- the context has ended
    ended : (after : W) (e : Error) → env.context after ≡ some e → Ending limit tried after (err e)
    -- the last attempt failed in a way that no retry can help
    permanent :
        (before after : W) (e : Error)
        → env.sync before ≡ (after, err e)
        → env.context after ≡ none
        → is_permanent_sync_error e ≡ true
        → Ending limit tried after (err e)
    -- the last attempt failed and none is left
    exhausted :
        (before after : W) (e : Error)
        → tried ≡ limit + 1
        → env.sync before ≡ (after, err e)
        → env.context after ≡ none
        → is_permanent_sync_error e ≡ false
        → Ending limit tried after (err (joined sync_retries_exhausted e))
    -- the wait failed
    wait_failed :
        (before after : W) (duration : ℤ) (e : Error)
        → env.wait duration before ≡ (after, some e)
        → env.context after ≡ none
        → Ending limit tried after (err e)

  later_Ending :
      (limit tried : ℕ) (after : W) (r : Result R)
      → Ending limit tried after r
      → Ending (suc limit) (suc tried) after r
  later_Ending limit tried after _ (success before _ result is) = success before after result is
  later_Ending limit tried after _ (ended _ e is) = ended after e is
  later_Ending limit tried after _ (permanent before _ e is live lasts) =
      permanent before after e is live lasts
  later_Ending limit tried after _ (exhausted before _ e last is live passes) =
      exhausted before after e (omega (arith, last)) is live passes
  later_Ending limit tried after _ (wait_failed before _ duration e is live) =
      wait_failed before after duration e is live

  -- A state that counts the attempts and keeps the delays that were waited for.
  pub record Trace : Type 0 where
    pub tries : W → ℕ
    pub waits : W → List ℤ
    pub sync_tries : (w : W) → tries (env.sync w).0 ≡ tries w + 1
    pub sync_waits : (w : W) → waits (env.sync w).0 ≡ waits w
    pub wait_tries : (duration : ℤ) (w : W) → tries (env.wait duration w).0 ≡ tries w
    pub wait_waits :
        (duration : ℤ) (w : W) → waits (env.wait duration w).0 ≡ waits w ++ (duration ∷ [])

  module _ (trace : Trace) (config : Config) where
    -- A synchronization with retries, from `w` on with the first delay `backoff`.
    pub record IsRetried (limit : ℕ) (backoff : ℤ) (w after : W) (r : Result R) : Type 0 where
      pub tried : ℕ
      pub waited : ℕ
      pub tries : trace.tries after ≡ trace.tries w + tried
      pub waits :
          trace.waits after ≡ trace.waits w ++ delays waited backoff config.retry_max_backoff
      pub few : (1 ≤ tried) × (tried ≤ limit + 1)
      pub between : (waited ≤ limit) × (waited ≤ tried) × (tried ≤ waited + 1)
      pub ending : Ending limit tried after r

    append_nil : {A : Type 0} (xs : List A) → xs ≡ xs ++ []
    append_nil [] = refl
    append_nil (x ∷ xs) = ap (λ ys. x ∷ ys) (append_nil xs)

    append_cons :
        {A : Type 0} (xs : List A) (x : A) (ys : List A) → (xs ++ (x ∷ [])) ++ ys ≡ xs ++ (x ∷ ys)
    append_cons [] x ys = refl
    append_cons (z ∷ xs) x ys = ap (λ l. z ∷ l) (append_cons xs x ys)

    -- It ends with the first attempt.
    pub at_once :
        (limit : ℕ) (backoff : ℤ) (w : W) (r : Result R)
        → Ending limit 1 (env.sync w).0 r
        → IsRetried limit backoff w (env.sync w).0 r
    at_once limit backoff w r ending = record {
      tried = 1;
      waited = 0;
      tries = trace.sync_tries w;
      waits = trace.sync_waits w ∙ append_nil (trace.waits w);
      few = (omega arith, omega arith);
      between = (omega arith, omega arith, omega arith);
      ending = ending;
    }

    -- It ends in the first wait.
    pub in_wait :
        (limit : ℕ) (backoff : ℤ) (w : W) (r : Result R)
        → Ending (suc limit) 1 (env.wait backoff (env.sync w).0).0 r
        → IsRetried (suc limit) backoff w (env.wait backoff (env.sync w).0).0 r
    in_wait limit backoff w r ending = record {
      tried = 1;
      waited = 1;
      tries = trace.wait_tries backoff (env.sync w).0 ∙ trace.sync_tries w;
      waits =
          trace.wait_waits backoff (env.sync w).0
          ∙ ap (λ l. l ++ (backoff ∷ [])) (trace.sync_waits w);
      few = (omega arith, omega arith);
      between = (omega arith, omega arith, omega arith);
      ending = ending;
    }

    -- It goes on after the first wait.
    pub once_more :
        (limit : ℕ) (backoff : ℤ) (w after : W) (r : Result R)
        → IsRetried limit
            (next_retry_backoff backoff config.retry_max_backoff)
            (env.wait backoff (env.sync w).0).0
            after
            r
        → IsRetried (suc limit) backoff w after r
    once_more limit backoff w after r h = record {
      tried = suc h.tried;
      waited = suc h.waited;
      tries = omega (arith, h.tries, trace.wait_tries backoff (env.sync w).0, trace.sync_tries w);
      waits =
          h.waits
          ∙ ap
              (λ l.
                l
                ++ delays h.waited (next_retry_backoff backoff config.retry_max_backoff)
                    config.retry_max_backoff)
              (trace.wait_waits backoff (env.sync w).0
                ∙ ap (λ l. l ++ (backoff ∷ [])) (trace.sync_waits w))
          ∙ append_cons (trace.waits w) backoff (
              delays h.waited (next_retry_backoff backoff config.retry_max_backoff)
                config.retry_max_backoff);
      few = omega (arith, h.few);
      between = omega (arith, h.between);
      ending = later_Ending limit h.tried after r h.ending;
    }

    pub stop-Ending :
        (limit : ℕ) (before : W) (ctx : Context) (x : Result R) (e : Error)
        → env.context (env.sync before).0 ≡ ctx
        → (env.sync before).1 ≡ x
        → judged env config ctx x ≡ stop e
        → Ending limit 1 (env.sync before).0 (err e)
    stop-Ending limit before ctx (ok result) e live is h = absurd (ground arith)
    stop-Ending limit before (some c) (err x) e live is h = ended _ e (ground (arith, h, live))
    stop-Ending limit before none (err x) e live is h =
        permanent before _ e (ground (arith, h, is)) live (ground (arith, h))

    pub done_result :
        (ctx : Context) (x : Result R) (result : R)
        → judged env config ctx x ≡ done result
        → x ≡ ok result
    done_result ctx (ok a) result h = ground (arith, h)
    done_result (some c) (err x) result h = absurd (ground (arith, h))
    done_result none (err x) result h = absurd (ground (arith, h))

    pub again_error :
        (ctx : Context) (x : Result R) (e : Error)
        → judged env config ctx x ≡ again e
        → (x ≡ err e) × (ctx ≡ none) × (is_permanent_sync_error e ≡ false)
    again_error ctx (ok a) e h = absurd (ground (arith, h))
    again_error (some c) (err x) e h = absurd (ground (arith, h))
    again_error none (err x) e h = (ground (arith, h), refl, ground (arith, h))

    pub wait_error-Ending :
        (limit : ℕ) (before : W) (duration : ℤ) (ctx : Context) (x : Option Error) (e : Error)
        → env.context (env.wait duration before).0 ≡ ctx
        → (env.wait duration before).1 ≡ x
        → wait_error env config ctx x ≡ some e
        → Ending limit 1 (env.wait duration before).0 (err e)
    wait_error-Ending limit before duration ctx none e live is h = absurd (ground (arith, h))
    wait_error-Ending limit before duration (some c) (some x) e live is h =
        ended _ e (ground (arith, h, live))
    wait_error-Ending limit before duration none (some x) e live is h =
        wait_failed before _ duration e (ground (arith, h, is)) live
