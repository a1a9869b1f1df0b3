-- ===== src/Config/Wiring.antt =====
-- A configuration that `Validate` accepts, at the syncer that is built from it.
use ethindexer.Common.{
  ℕ, ◌≡◌, refl, List, [], ◌∷◌, Option, none, some, Bool, true, false, not, ◌||◌, ltb, leb, ◌&&◌,
  ◌==◌, ℤ, pos, ltb_ℤ, leb_ℤ, All, arith,
}
use ethindexer.Failure.{ok}
use ethindexer.Domain.{HeadMode, max_block_window, Time}
use ethindexer.Ethereum.{Reader}
use ethindexer.Store.{IndexStore}
use ethindexer.Indexer.Syncer.{new_syncer, RangeFetcher}
use ethindexer.Indexer.Once.{validate_sync_once_config, is_known_mode}
use ethindexer.Indexer.Runner.{validate_run_config}
use ethindexer.Config.{
  Config, Problem, Url, report, positive_duration, compact, problems, validate, syncer_config,
  is_unknown_mode,
}

compact-All :
    (values : List (Option Problem)) → compact values ≡ [] → All (λ value. value ≡ none) values
unfolding compact
compact-All [] h = tt
compact-All (none ∷ values) h = (refl, compact-All values h)
compact-All (some problem ∷ values) h = absurd (ground (arith, h))

report-none : (test : Bool) (problem : Problem) → report test problem ≡ none → test ≡ false
report-none false problem h = refl
report-none true problem h = absurd (ground (arith, h))

-- What the syncer needs of a configuration.
record IsUsable {Text : Type 0} (cfg : Config Text) : Type 0 where
  chain_id : (cfg.ethereum.chain_id == 1) ≡ true
  rpc_concurrency :
      (ltb_ℤ cfg.ethereum.rpc_concurrency (pos 1) || ltb_ℤ (pos 64) cfg.ethereum.rpc_concurrency)
      ≡ false
  poll_interval : leb_ℤ cfg.indexer.poll_interval (pos 0) ≡ false
  block_window :
      (cfg.indexer.block_window == 0 || ltb max_block_window cfg.indexer.block_window) ≡ false
  head_mode : is_unknown_mode cfg.indexer.head_mode ≡ false
  retry_attempts : ltb_ℤ cfg.indexer.retry_attempts (pos 0) ≡ false
  retry_min_backoff : leb_ℤ cfg.indexer.retry_min_backoff (pos 0) ≡ false
  retry_max_backoff : leb_ℤ cfg.indexer.retry_max_backoff (pos 0) ≡ false
  ordered : ltb_ℤ cfg.indexer.retry_max_backoff cfg.indexer.retry_min_backoff ≡ false

module _ {Text : Type 0} (is_blank : Text → Bool) (parse_uri : Text → Option Url)
    (http_schemes postgres_schemes : List ℕ) (cfg : Config Text) where
  validate-IsUsable :
      validate is_blank parse_uri http_schemes postgres_schemes cfg ≡ [] → IsUsable cfg
  unfolding validate problems positive_duration
  validate-IsUsable h =
      let (
        _,
        (
          _,
          (
            _,
            (
              _,
              (
                _,
                (
                  _,
                  (
                    _,
                    (
                      _,
                      (
                        chain,
                        (
                          _,
                          (
                            concurrency,
                            (poll, (window, (mode, (attempts, (least, (most, (order, _))))))),
                          ),
                        ),
                      ),
                    ),
                  ),
                ),
              ),
            ),
          ),
        ),
      ) =
        compact-All (problems is_blank parse_uri http_schemes postgres_schemes cfg) h in
      record {
        chain_id = ground (arith, chain);
        rpc_concurrency = report-none _ _ concurrency;
        poll_interval = report-none _ _ poll;
        block_window = report-none _ _ window;
        head_mode = report-none _ _ mode;
        retry_attempts = report-none _ _ attempts;
        retry_min_backoff = report-none _ _ least;
        retry_max_backoff = report-none _ _ most;
        ordered = report-none _ _ order;
      }

positive : (n : ℤ) → leb_ℤ n (pos 0) ≡ false → ltb_ℤ (pos 0) n ≡ true
positive n h = ground (arith, h)

known_mode : (mode : HeadMode) → is_unknown_mode mode ≡ false → is_known_mode mode ≡ true
known_mode mode h = ground (arith, h)

module _ {Text S : Type 0} (cfg : Config Text) (usable : IsUsable cfg) (fetcher : RangeFetcher)
    (chain : Reader) (store : IndexStore S) (now : Time)
    (same : fetcher.chain_id ≡ some (pos cfg.ethereum.chain_id)) where
  chain_is_one : cfg.ethereum.chain_id ≡ 1
  chain_is_one = ground (arith, usable.chain_id)

  in_window :
      (not (cfg.indexer.block_window == 0) && leb cfg.indexer.block_window max_block_window) ≡ true
  in_window = ground (arith, usable.block_window)

  enough_workers : leb_ℤ (pos 1) cfg.ethereum.rpc_concurrency ≡ true
  enough_workers = ground (arith, usable.rpc_concurrency)

  not_negative : leb_ℤ (pos 0) cfg.indexer.retry_attempts ≡ true
  not_negative = ground (arith, usable.retry_attempts)

  in_order : leb_ℤ cfg.indexer.retry_min_backoff cfg.indexer.retry_max_backoff ≡ true
  in_order = ground (arith, usable.ordered)

  sync_once_config :
      validate_sync_once_config (new_syncer fetcher chain store (syncer_config cfg) now) ≡ ok tt
  unfolding validate_sync_once_config
  sync_once_config =
      rw
        (
          same,
          chain_is_one,
          in_window,
          enough_workers,
          known_mode cfg.indexer.head_mode usable.head_mode,
        )
        refl

  run_config : validate_run_config (new_syncer fetcher chain store (syncer_config cfg) now) ≡ ok tt
  unfolding validate_run_config
  run_config =
      rw
        (
          sync_once_config,
          positive cfg.indexer.poll_interval usable.poll_interval,
          not_negative,
          positive cfg.indexer.retry_min_backoff usable.retry_min_backoff,
          positive cfg.indexer.retry_max_backoff usable.retry_max_backoff,
          in_order,
        )
        refl

-- Whatever counts as blank and however URLs are parsed: the syncer that is put together from a
-- configuration which `Validate` accepts, with a fetcher for the configured chain, passes its own
-- check of the configuration before it runs.
pub validate_run_config-validate :
    {Text S : Type 0} (is_blank : Text → Bool) (parse_uri : Text → Option Url)
    (http_schemes postgres_schemes : List ℕ) (cfg : Config Text) (fetcher : RangeFetcher)
    (chain : Reader) (store : IndexStore S) (now : Time)
    → validate is_blank parse_uri http_schemes postgres_schemes cfg ≡ []
    → fetcher.chain_id ≡ some (pos cfg.ethereum.chain_id)
    → validate_run_config (new_syncer fetcher chain store (syncer_config cfg) now) ≡ ok tt
validate_run_config-validate is_blank parse_uri http_schemes postgres_schemes cfg fetcher chain
      store now h same =
    run_config cfg (validate-IsUsable is_blank parse_uri http_schemes postgres_schemes cfg h)
      fetcher chain store now same
