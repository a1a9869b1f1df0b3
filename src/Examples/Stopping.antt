-- ===== src/Examples/Stopping.antt =====
-- A caller that cancels the services of the process.
use ethindexer.Common.{◌≡◌, ◌≢◌, ◌⊎◌, refl, List, [], ◌∷◌, none, some, true, false, is_some, ◌||◌}
use ethindexer.Failure.{canceled, server_closed}
use ethindexer.Runtime.{
  Services, Action, end_caller, indexer_returns, http_returns, shutdown_returns, run, start, wait,
}
use ethindexer.Runtime.Stopping.{run_services_stops}

abbrev actions : List Action
actions =
    end_caller canceled
    ∷ indexer_returns (some canceled)
    ∷ shutdown_returns none
    ∷ http_returns (some server_closed)
    ∷ []

abbrev after_cancel : Services
after_cancel = record {
  caller = some canceled;
  group = some canceled;
  first = none;
  indexer_done = true;
  http_done = true;
  shutdown_done = true;
}

reaches : run actions start ≡ some after_cancel
unfolding run ethindexer.Runtime.step ethindexer.Runtime.indexer_result
    ethindexer.Runtime.http_result ethindexer.Runtime.shutdown_result ethindexer.Failure.matches
reaches = refl

returns_nil : wait after_cancel ≡ some none
unfolding wait
returns_nil = refl

run_services_stops_example :
    (((after_cancel.indexer_done || after_cancel.http_done) ≡ false)
      ⊎ (is_some after_cancel.group ≡ true))
    × ((wait after_cancel ≢ some none) ⊎ (is_some after_cancel.caller ≡ true))
run_services_stops_example = run_services_stops actions after_cancel reaches
