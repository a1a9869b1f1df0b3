-- ===== src/Examples/Setting.antt =====
-- The default configuration with two URLs. A text is a number, and 0 is blank.
use ethindexer.Common.{ℕ, ◌≡◌, refl, [], ◌∷◌, Option, some, Bool, true, ◌==◌, pos}
use ethindexer.Failure.{ok}
use ethindexer.Domain.{latest}
use ethindexer.Store.Memory.Interface.{memory_store}
use ethindexer.Indexer.Syncer.{new_syncer}
use ethindexer.Indexer.Runner.{validate_run_config}
use ethindexer.Config.{Config, Problem, Url, validate, syncer_config}
use ethindexer.Config.Wiring.{validate_run_config-validate}
use ethindexer.Examples.Data.{range_fetcher, quiet_chain, alive_readings}

abbrev is_zero : ℕ → Bool
is_zero n = n == 0

abbrev parse : ℕ → Option Url
parse text = some (record { has_host = true; scheme = text })

abbrev setting : Config ℕ
setting = record {
  app = record { environment = 5; log_level = 6 };
  http = record {
    address = 7;
    request_timeout = pos 5;
    read_header_timeout = pos 5;
    idle_timeout = pos 60;
    shutdown_timeout = pos 10;
  };
  ethereum = record { rpc_url = 2; chain_id = 1; rpc_timeout = pos 30; rpc_concurrency = pos 4 };
  indexer = record {
    poll_interval = pos 4;
    block_window = 50;
    head_mode = latest;
    retry_attempts = pos 3;
    retry_min_backoff = pos 1;
    retry_max_backoff = pos 10;
  };
  database = record {
    url = 3;
    max_connections = pos 12;
    min_connections = pos 2;
    connect_timeout = pos 10;
  };
}

accepted : validate is_zero parse (1 ∷ 2 ∷ []) (3 ∷ 4 ∷ []) setting ≡ []
unfolding validate ethindexer.Config.problems ethindexer.Config.compact
    ethindexer.Config.positive_duration ethindexer.Config.validate_url
accepted = refl

validate_run_config-validate_example :
    validate_run_config
      (new_syncer range_fetcher quiet_chain (memory_store alive_readings) (syncer_config setting) 0)
    ≡ ok tt
validate_run_config-validate_example =
    validate_run_config-validate is_zero parse (1 ∷ 2 ∷ []) (3 ∷ 4 ∷ []) setting range_fetcher
      quiet_chain (memory_store alive_readings) 0 accepted refl
