-- ===== src/Indexer/Runner.antt =====
-- internal/indexer/runner.go: the retries of a synchronization, their backoff, and the polling loop.
-- What runs outside (the synchronization, the timer, the context) is a parameter over a state `W`.
pub mod Backoff
pub mod Retries
pub mod Attempts
pub mod Polling
use ethindexer.Common.{
  ℕ, zero, suc, List, [], ◌∷◌, Option, none, some, Bool, true, false, not, ◌&&◌, ◌||◌,
  if◌then◌else◌, ℤ, pos, negsuc, leb_ℤ, ltb_ℤ, sub_ℤ, twice, wrap_int64,
}
use ethindexer.Failure.{
  Error, Result, ok, err, ◌>>=◌, ◌>>◌, guard, Context, matches, joined, invalid_sync_config,
  invalid_sync_dependency, invalid_canonical_update, inconsistent_data, sync_retries_exhausted,
}
use ethindexer.Indexer.Syncer.{Config, Syncer}
use ethindexer.Indexer.Once.{validate_sync_once_config}

unfoldable pub validate_run_config : {S : Type 0} → Syncer S → Result (Unit {0})
validate_run_config s = do
  validate_sync_once_config s
  guard (ltb_ℤ (pos 0) s.config.poll_interval) invalid_sync_config
  guard (leb_ℤ (pos 0) s.config.retry_attempts) invalid_sync_config
  guard (ltb_ℤ (pos 0) s.config.retry_min_backoff) invalid_sync_config
  guard (ltb_ℤ (pos 0) s.config.retry_max_backoff) invalid_sync_config
  guard (leb_ℤ s.config.retry_min_backoff s.config.retry_max_backoff) invalid_sync_config

abbrev is_permanent_sentinel : Error → Bool
is_permanent_sentinel invalid_sync_config = true
is_permanent_sentinel invalid_sync_dependency = true
is_permanent_sentinel invalid_canonical_update = true
is_permanent_sentinel inconsistent_data = true
is_permanent_sentinel _ = false

unfoldable pub is_permanent_sync_error : Error → Bool
is_permanent_sync_error e = matches is_permanent_sentinel e

-- On `time.Duration`, an int64.
unfoldable pub next_retry_backoff : ℤ → ℤ → ℤ
next_retry_backoff current maximum =
    if leb_ℤ maximum current || ltb_ℤ (wrap_int64 (sub_ℤ maximum current)) current
    then maximum
    else wrap_int64 (twice current)

-- What one attempt leads to.
pub data Verdict (R : Type 0) : Type 0 where
  done : R → Verdict R
  stop again : Error → Verdict R

-- The surroundings of the loops: the state, the synchronization, `s.wait` and `ctx.Err()`.
pub record Surroundings (W R : Type 0) : Type 0 where
  pub sync : W → W × Result R
  pub wait : ℤ → W → W × Option Error
  pub context : W → Context

-- `retry >= RetryAttempts` holds at once for a negative number.
abbrev pub attempts_of : ℤ → ℕ
attempts_of (pos n) = n
attempts_of (negsuc n) = 0

module _ {W R : Type 0} (env : Surroundings W R) (config : Config) where
  abbrev pub judged : Context → Result R → Verdict R
  judged ctx (ok result) = done result
  judged (some ended) (err e) = stop ended
  judged none (err e) = if is_permanent_sync_error e then stop e else again e

  unfoldable pub attempt : W → W × Verdict R
  attempt w = let (after, result) = env.sync w in (after, judged (env.context after) result)

  -- The error of a wait: the context's, if it has ended.
  abbrev pub wait_error : Context → Option Error → Option Error
  wait_error ctx none = none
  wait_error none (some e) = some e
  wait_error (some ended) (some e) = some ended

  unfoldable pub wait_for : ℤ → W → W × Option Error
  wait_for duration w =
      let (after, e) = env.wait duration w in (after, wait_error (env.context after) e)

  -- The loop with `left` for `RetryAttempts - retry`.
  unfoldable pub retry_loop : ℕ → ℤ → W → W × Result R
  retry_loop zero backoff w =
      let (after, verdict) = attempt w in
      elim verdict [
        | done result ↦ (after, ok result)
        | stop e ↦ (after, err e)
        | again e ↦ (after, err (joined sync_retries_exhausted e))
      ]
  retry_loop (suc left) backoff w =
      let (after, verdict) = attempt w in
      elim verdict [
        | done result ↦ (after, ok result)
        | stop e ↦ (after, err e)
        | again e ↦
            let (later, failed) = wait_for backoff after in
            elim failed [
              | some failure ↦ (later, err failure)
              | none ↦ retry_loop left (next_retry_backoff backoff config.retry_max_backoff) later
            ]
      ]

  unfoldable pub sync_with_retry : W → W × Result R
  sync_with_retry w = retry_loop (attempts_of config.retry_attempts) config.retry_min_backoff w

  -- After a cycle: a failed one ends the loop only if the context has ended.
  abbrev pub cycle_error : Context → Result R → Option Error
  cycle_error ctx (ok result) = none
  cycle_error ctx (err e) = ctx

  -- The polling loop, for at most `cycles` rounds; `none` is a loop that still runs.
  unfoldable pub poll : ℕ → W → W × Option Error
  poll zero w = (w, none)
  poll (suc cycles) w =
      let (after, failed) = wait_for config.poll_interval w in
      elim failed [
        | some e ↦ (after, some e)
        | none ↦
            let (later, result) = sync_with_retry after in
            elim (cycle_error (env.context later) result) [
              | some e ↦ (later, some e)
              | none ↦ poll cycles later
            ]
      ]

  -- The error of the first synchronization: the context's, if it has ended.
  abbrev pub initial_error : Context → Error → Error
  initial_error none e = e
  initial_error (some ended) e = ended

  unfoldable pub run_checked : Result (Unit {0}) → ℕ → W → W × Option Error
  run_checked (err e) cycles w = (w, some e)
  run_checked (ok _) cycles w =
      let (after, first) = sync_with_retry w in
      elim first [
        | err e ↦ (after, some (initial_error (env.context after) e))
        | ok result ↦ poll cycles after
      ]

-- `Run`, for at most `cycles` rounds of its polling loop.
unfoldable pub run_syncer :
    {S W R : Type 0} → Syncer S → Surroundings W R → ℕ → W → W × Option Error
run_syncer s env cycles w = run_checked env s.config (validate_run_config s) cycles w
