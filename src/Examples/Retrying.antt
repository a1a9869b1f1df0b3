-- ===== src/Examples/Retrying.antt =====
-- Synchronizations that fail and are tried again.
use ethindexer.Common.{
  ℕ, ◌+◌, ◌≡◌, refl, List, [], ◌∷◌, ◌++◌, none, some, ltb, if◌then◌else◌, ℤ, pos, get_elem?, arith,
}
use ethindexer.Failure.{Error, Result, ok, err, foreign, canceled, Context}
use ethindexer.Indexer.Runner.{
  Surroundings, next_retry_backoff, attempts_of, sync_with_retry, run_syncer, validate_run_config,
}
use ethindexer.Indexer.Runner.Backoff.{
  delays, smaller, doubled, next_retry_backoff_exact, delays-get_elem?,
}
use ethindexer.Indexer.Runner.Retries.{Trace, IsRetried}
use ethindexer.Indexer.Runner.Attempts.{sync_with_retry-IsRetried}
use ethindexer.Indexer.Runner.Polling.{Ended, run_syncer-Ended}
use ethindexer.Examples.Data.{config, syncer}

-- The attempts so far, and the delays.
abbrev World : Type 0
World = ℕ × List ℤ

-- The first two attempts fail; the context ends at the fifth.
abbrev surroundings : Surroundings World ℕ
surroundings = record {
  sync = λ w. ((w.0 + 1, w.1), if ltb w.0 2 then err (foreign w.0) else ok w.0);
  wait = λ duration w. ((w.0, w.1 ++ (duration ∷ [])), if ltb w.0 5 then none else some canceled);
  context = λ w. if ltb w.0 5 then none else some canceled;
}

abbrev trace : Trace surroundings
trace = record {
  tries = λ w. w.0;
  waits = λ w. w.1;
  sync_tries = λ w. refl;
  sync_waits = λ w. refl;
  wait_tries = λ duration w. refl;
  wait_waits = λ duration w. refl;
}

abbrev begin : World
begin = (0, [])

sync_with_retry-IsRetried_example :
    IsRetried surroundings trace config 3
      (pos 2)
      begin
      (sync_with_retry surroundings config begin).0
      (sync_with_retry surroundings config begin).1
sync_with_retry-IsRetried_example = sync_with_retry-IsRetried surroundings trace config begin

third_succeeds : sync_with_retry surroundings config begin ≡ ((3, pos 2 ∷ pos 3 ∷ []), ok 2)
unfolding sync_with_retry ethindexer.Indexer.Runner.retry_loop ethindexer.Indexer.Runner.attempt
    ethindexer.Indexer.Runner.wait_for next_retry_backoff
    ethindexer.Indexer.Runner.is_permanent_sync_error ethindexer.Failure.matches
third_succeeds = refl

next_retry_backoff_exact_example : next_retry_backoff (pos 2) (pos 3) ≡ pos (smaller (2 + 2) 3)
next_retry_backoff_exact_example = next_retry_backoff_exact 2 3 (omega arith) (omega arith)

delays-get_elem?_example :
    get_elem? (delays 5 (pos 2) (pos 30)) 3 ≡ some (pos (smaller (doubled 3 2) 30))
delays-get_elem?_example =
    delays-get_elem? 5 3 2 30 (omega arith) (omega arith) (omega arith) (omega arith)

config_valid : validate_run_config syncer ≡ ok tt
unfolding validate_run_config ethindexer.Indexer.Once.validate_sync_once_config
config_valid = refl

first_succeeds : (sync_with_retry surroundings config begin).1 ≡ ok 2
first_succeeds = ground (arith, third_succeeds)

run_ends : (run_syncer syncer surroundings 9 begin).1 ≡ some canceled
unfolding run_syncer ethindexer.Indexer.Runner.run_checked validate_run_config
    ethindexer.Indexer.Once.validate_sync_once_config sync_with_retry
    ethindexer.Indexer.Runner.retry_loop ethindexer.Indexer.Runner.attempt
    ethindexer.Indexer.Runner.is_permanent_sync_error ethindexer.Failure.matches
    ethindexer.Indexer.Runner.wait_for ethindexer.Indexer.Runner.poll
run_ends = refl

run_syncer-Ended_example :
    Ended surroundings config (run_syncer syncer surroundings 9 begin).0 canceled
run_syncer-Ended_example =
    run_syncer-Ended syncer surroundings 9 begin 2 canceled config_valid first_succeeds run_ends
