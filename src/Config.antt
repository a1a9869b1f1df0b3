-- ===== src/Config.antt =====
-- internal/config/config.go: the configuration and `Validate`, and how cmd/indexer/main.go hands it
-- to the syncer. `strings.TrimSpace` and `url.ParseRequestURI` are parameters over a type of texts.
pub mod Wiring
use ethindexer.Common.{
  ℕ, List, [], ◌∷◌, ◌++◌, Option, none, some, Bool, true, false, not, ◌&&◌, ◌||◌, ltb, ◌==◌,
  if◌then◌else◌, ℤ, pos, leb_ℤ, ltb_ℤ,
}
use ethindexer.Domain.{HeadMode, latest, safe, finalized, other, max_block_window}
use ethindexer.Indexer.Syncer

-- A `Duration` is its `time.Duration`, in nanoseconds.
pub record App (Text : Type 0) : Type 0 where
  pub environment : Text
  pub log_level : Text

pub record Http (Text : Type 0) : Type 0 where
  pub address : Text
  pub request_timeout : ℤ
  pub read_header_timeout : ℤ
  pub idle_timeout : ℤ
  pub shutdown_timeout : ℤ

pub record Ethereum (Text : Type 0) : Type 0 where
  pub rpc_url : Text
  pub chain_id : ℕ  -- uint64
  pub rpc_timeout : ℤ
  pub rpc_concurrency : ℤ  -- int

pub record Indexer : Type 0 where
  pub poll_interval : ℤ
  pub block_window : ℕ  -- uint64
  pub head_mode : HeadMode
  pub retry_attempts : ℤ  -- int
  pub retry_min_backoff : ℤ
  pub retry_max_backoff : ℤ

pub record Database (Text : Type 0) : Type 0 where
  pub url : Text
  pub max_connections : ℤ  -- int32
  pub min_connections : ℤ  -- int32
  pub connect_timeout : ℤ

pub record Config (Text : Type 0) : Type 0 where
  pub app : App Text
  pub http : Http Text
  pub ethereum : Ethereum Text
  pub indexer : Indexer
  pub database : Database Text

-- The field that a problem names.
pub data Field : Type 0 where
  environment log_level address request_timeout read_header_timeout idle_timeout : Field
  shutdown_timeout rpc_url chain_id rpc_timeout rpc_concurrency poll_interval : Field
  block_window head_mode retry_attempts retry_min_backoff retry_max_backoff : Field
  database_url max_connections min_connections connect_timeout : Field

pub data Problem : Type 0 where
  required not_positive not_a_url unsupported_scheme : Field → Problem
  out_of_range negative unsupported larger_than_maximum : Field → Problem

-- What the source uses of a parsed URL; a URL that does not parse is `none`.
pub record Url : Type 0 where
  pub has_host : Bool
  pub scheme : ℕ

-- `if test { problems = append(problems, problem) }`
abbrev pub report : Bool → Problem → Option Problem
report true problem = some problem
report false problem = none

unfoldable pub positive_duration : Field → ℤ → Option Problem
positive_duration field value = report (leb_ℤ value (pos 0)) (not_positive field)

unfoldable pub compact : List (Option Problem) → List Problem
compact [] = []
compact (none ∷ values) = compact values
compact (some problem ∷ values) = problem ∷ compact values

abbrev pub is_unknown_mode : HeadMode → Bool
is_unknown_mode other = true
is_unknown_mode _ = false

abbrev allowed : ℕ → List ℕ → Bool
allowed scheme [] = false
allowed scheme (s ∷ schemes) = scheme == s || allowed scheme schemes

abbrev url_problem : Field → Option Url → List ℕ → Option Problem
url_problem field none schemes = some (not_a_url field)
url_problem field (some parsed) schemes =
    if parsed.has_host
    then report (not (allowed parsed.scheme schemes)) (unsupported_scheme field)
    else some (not_a_url field)

module _ {Text : Type 0} (is_blank : Text → Bool) (parse_uri : Text → Option Url)
    (http_schemes postgres_schemes : List ℕ) where
  unfoldable pub validate_url : Field → Text → List ℕ → Option Problem
  validate_url field raw schemes =
      if is_blank raw then some (required field) else url_problem field (parse_uri raw) schemes

  -- Each check of `Validate`, in its order.
  unfoldable pub problems : Config Text → List (Option Problem)
  problems cfg =
      report (is_blank cfg.app.environment) (required environment)
      ∷ report (is_blank cfg.app.log_level) (required log_level)
      ∷ report (is_blank cfg.http.address) (required address)
      ∷ positive_duration request_timeout cfg.http.request_timeout
      ∷ positive_duration read_header_timeout cfg.http.read_header_timeout
      ∷ positive_duration idle_timeout cfg.http.idle_timeout
      ∷ positive_duration shutdown_timeout cfg.http.shutdown_timeout
      ∷ validate_url rpc_url cfg.ethereum.rpc_url http_schemes
      ∷ report (not (cfg.ethereum.chain_id == 1)) (out_of_range chain_id)
      ∷ positive_duration rpc_timeout cfg.ethereum.rpc_timeout
      ∷ report
          (ltb_ℤ cfg.ethereum.rpc_concurrency (pos 1)
            || ltb_ℤ (pos 64) cfg.ethereum.rpc_concurrency)
          (out_of_range rpc_concurrency)
      ∷ positive_duration poll_interval cfg.indexer.poll_interval
      ∷ report (cfg.indexer.block_window == 0 || ltb max_block_window cfg.indexer.block_window)
          (out_of_range block_window)
      ∷ report (is_unknown_mode cfg.indexer.head_mode) (unsupported head_mode)
      ∷ report (ltb_ℤ cfg.indexer.retry_attempts (pos 0)) (negative retry_attempts)
      ∷ positive_duration retry_min_backoff cfg.indexer.retry_min_backoff
      ∷ positive_duration retry_max_backoff cfg.indexer.retry_max_backoff
      ∷ report (ltb_ℤ cfg.indexer.retry_max_backoff cfg.indexer.retry_min_backoff)
          (larger_than_maximum retry_min_backoff)
      ∷ validate_url database_url cfg.database.url postgres_schemes
      ∷ report (ltb_ℤ cfg.database.max_connections (pos 1)) (not_positive max_connections)
      ∷ report
          (ltb_ℤ cfg.database.min_connections (pos 0)
            || ltb_ℤ cfg.database.max_connections cfg.database.min_connections)
          (out_of_range min_connections)
      ∷ positive_duration connect_timeout cfg.database.connect_timeout
      ∷ []

  -- `Validate`: no problem is the nil error, which is what joining no errors gives.
  unfoldable pub validate : Config Text → List Problem
  validate cfg = compact (problems cfg)

-- The configuration of the syncer that `run` of cmd/indexer/main.go puts together.
abbrev pub syncer_config : {Text : Type 0} → Config Text → Syncer.Config
syncer_config cfg = record {
  chain_id = cfg.ethereum.chain_id;
  poll_interval = cfg.indexer.poll_interval;
  block_window = cfg.indexer.block_window;
  head_mode = cfg.indexer.head_mode;
  rpc_timeout = cfg.ethereum.rpc_timeout;
  rpc_concurrency = cfg.ethereum.rpc_concurrency;
  retry_attempts = cfg.indexer.retry_attempts;
  retry_min_backoff = cfg.indexer.retry_min_backoff;
  retry_max_backoff = cfg.indexer.retry_max_backoff;
}
