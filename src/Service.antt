-- ===== src/Service.antt =====
-- internal/service: the use cases that the HTTP layer calls.
-- The store is an interface, taken at one context and one state: `QueryStore` of
-- internal/store/store.go and `readinessStore` of internal/service/health.go.
pub mod Backed
use ethindexer.Common.{ℕ, Bool, true, false, Option, none, some, if◌then◌else◌}
use ethindexer.Failure.{
  Error, Result, ok, err, ◌>>=◌, ◌>>◌, matches, joined, not_found, invalid_query, stale_cursor,
  service_not_found, service_invalid_query, service_stale_cursor, not_ready,
}
use ethindexer.Domain.{Hash, BlockResult, TransactionResult, EventQuery, EventPage, ChainTip}

pub record QueryStore : Type 0 where
  pub block_by_number : ℕ → Result BlockResult
  pub transaction_by_hash : Hash → Result TransactionResult
  pub events_by_address : EventQuery → Result EventPage

pub record Queries : Type 0 where
  pub block : ℕ → Result BlockResult
  pub transaction : Hash → Result TransactionResult
  pub events : EventQuery → Result EventPage

abbrev pub is_not_found : Error → Bool
is_not_found not_found = true
is_not_found _ = false

abbrev pub is_invalid_query : Error → Bool
is_invalid_query invalid_query = true
is_invalid_query _ = false

abbrev pub is_stale_cursor : Error → Bool
is_stale_cursor stale_cursor = true
is_stale_cursor _ = false

-- An error that is not nil.
unfoldable pub translate_store_error : Error → Error
translate_store_error e =
    if matches is_not_found e
    then joined service_not_found e
    else (if matches is_invalid_query e
        then joined service_invalid_query e
        else (if matches is_stale_cursor e then joined service_stale_cursor e else e))

-- `return result, translateStoreError(err)`
abbrev pub translated {ℓ} : {A : Type ℓ} → Result A → Result A
translated (ok result) = ok result
translated (err e) = err (translate_store_error e)

unfoldable pub query_service : QueryStore → Queries
query_service store = record {
  block = λ number. translated (store.block_by_number number);
  transaction = λ hash. translated (store.transaction_by_hash hash);
  events = λ query. translated (store.events_by_address query);
}

pub record ReadinessStore : Type 0 where
  pub ping : Result (Unit {0})
  pub canonical_tip : Result (Option ChainTip)

abbrev found_tip : Option ChainTip → Result ChainTip
found_tip none = err not_ready
found_tip (some tip) = ok tip

unfoldable pub ready : ReadinessStore → Result ChainTip
ready store = do store.ping; tip ← store.canonical_tip; found_tip tip
