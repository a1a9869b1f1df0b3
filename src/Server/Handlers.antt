-- ===== src/Server/Handlers.antt =====
-- The handlers: `blockByNumber`, `transactionByHash`, `eventsByAddress`, `health` and `readiness`.
pub mod Lookups
pub mod Statuses
pub mod Paging
use ethindexer.Common.{
  ℕ, ◌%◌, List, [], ◌∷◌, Option, none, some, Bool, true, false, not, ◌&&◌, ◌==◌, leb, if◌then◌else◌,
  map,
}
use ethindexer.Failure.{
  Error, Result, ok, err, ◌>>=◌, ◌>>◌, guard, matches, service_not_found, service_invalid_query,
  service_stale_cursor, invalid_event_limit,
}
use ethindexer.Domain.{
  Address, BlockResult, TransactionResult, EventQuery, EventPage, ChainTip, max_event_page_size,
  uint32_size,
}
use ethindexer.Service.{Queries}
use ethindexer.Server.Numbers.{Text, parse_block_number}
use ethindexer.Server.Cursor.{parse_event_cursor}
use ethindexer.Server.Hex.{Hex, parse_transaction_hash, parse_event_address}
use ethindexer.Server.Responses.{
  BlockResponse, TransactionResponse, EventPageResponse, new_block_response,
  new_transaction_response, new_event_page_response,
}

-- The codes of `writeError`, which decide the message. Where an error value has the name already,
-- the constructor has another: `invalid_hash` is "invalid_transaction_hash", `invalid_query_code`
-- "invalid_event_query", `stale_cursor_code` "stale_cursor".
pub data ErrorCode : Type 0 where
  -- blocks.go
  invalid_block_number block_not_found : ErrorCode
  -- transactions.go
  invalid_hash transaction_not_found : ErrorCode
  -- events.go
  invalid_address invalid_limit invalid_cursor invalid_query_code stale_cursor_code : ErrorCode
  -- every handler
  internal_error : ErrorCode

-- The responses that are marshalled: `status_ok`, `status_not_ready` and `status_ready` are the
-- bodies of health.go.
pub data Body : Type 0 where
  failure : ErrorCode → Body
  block_body : BlockResponse → Body
  transaction_body : TransactionResponse → Body
  page_body : EventPageResponse → Body
  status_ok status_not_ready : Body
  status_ready : ℕ → Body

pub record Response : Type 0 where
  pub status : ℕ
  pub body : Body

abbrev pub respond : ℕ → Body → Response
respond status body = record { status = status; body = body }

abbrev pub write_error : ℕ → ErrorCode → Response
write_error status code = respond status (failure code)

abbrev is_service_not_found : Error → Bool
is_service_not_found service_not_found = true
is_service_not_found _ = false

abbrev is_service_invalid_query : Error → Bool
is_service_invalid_query service_invalid_query = true
is_service_invalid_query _ = false

abbrev is_service_stale_cursor : Error → Bool
is_service_stale_cursor service_stale_cursor = true
is_service_stale_cursor _ = false

-- The values of `request.URL.Query()` that the handlers read.
pub record Parameters : Type 0 where
  pub limit : Option (List Text)
  pub cursor : Option (List Text)

abbrev pub default_event_page_size : ℕ
default_event_page_size = 100

abbrev in_page_size : Result ℕ → Result ℕ
in_page_size (err e) = err invalid_event_limit
in_page_size (ok limit) = do
  guard (not (limit == 0) && leb limit max_event_page_size) invalid_event_limit
  ok (limit % uint32_size)

unfoldable pub parse_event_limit : Option (List Text) → Result ℕ
parse_event_limit none = ok default_event_page_size
parse_event_limit (some []) = err invalid_event_limit
parse_event_limit (some (value ∷ [])) = in_page_size (parse_block_number value)
parse_event_limit (some (value ∷ other ∷ values)) = err invalid_event_limit

-- The error answers of a lookup, by its "not found" code.
abbrev pub lookup_error : ErrorCode → Error → Response
lookup_error missing e =
    if matches is_service_not_found e
    then write_error 404 missing
    else write_error 500 internal_error

abbrev pub events_error : Error → Response
events_error e =
    if matches is_service_invalid_query e
    then write_error 400 invalid_query_code
    else (if matches is_service_stale_cursor e
        then write_error 409 stale_cursor_code
        else write_error 500 internal_error)

abbrev readiness_answer : Result ChainTip → Response
readiness_answer (err e) = respond 503 status_not_ready
readiness_answer (ok tip) = respond 200 (status_ready tip.number)

-- `HealthService.Ready` is given by its result.
unfoldable pub readiness : Result ChainTip → Response
readiness ready = readiness_answer ready

unfoldable pub health : Response
health = respond 200 status_ok

module _ (hex : Hex) (service : Queries) where
  abbrev block_answer : Result BlockResult → Response
  block_answer (err e) = lookup_error block_not_found e
  block_answer (ok result) = respond 200 (block_body (new_block_response hex result))

  unfoldable pub block_by_number : Text → Response
  block_by_number raw_number = elim (parse_block_number raw_number) [
    | err e ↦ write_error 400 invalid_block_number
    | ok number ↦ block_answer (service.block number)
  ]

  abbrev transaction_body_of : Result TransactionResponse → Response
  transaction_body_of (err e) = write_error 500 internal_error
  transaction_body_of (ok response) = respond 200 (transaction_body response)

  abbrev transaction_answer : Result TransactionResult → Response
  transaction_answer (err e) = lookup_error transaction_not_found e
  transaction_answer (ok result) = transaction_body_of (new_transaction_response hex result)

  unfoldable pub transaction_by_hash : Text → Response
  transaction_by_hash raw_hash = elim (parse_transaction_hash hex raw_hash) [
    | err e ↦ write_error 400 invalid_hash
    | ok hash ↦ transaction_answer (service.transaction hash)
  ]

  abbrev page_answer : Result EventPage → Response
  page_answer (err e) = events_error e
  page_answer (ok page) = respond 200 (page_body (new_event_page_response hex page))

  unfoldable pub events_by_address : Text → Parameters → Response
  events_by_address raw_address parameters = elim (parse_event_address hex raw_address) [
    | err e ↦ write_error 400 invalid_address
    | ok address ↦ elim (parse_event_limit parameters.limit) [
      | err e ↦ write_error 400 invalid_limit
      | ok limit ↦ elim (parse_event_cursor parameters.cursor) [
        | err e ↦ write_error 400 invalid_cursor
        | ok cursor ↦
            page_answer
              (service.events (record { address = address; limit = limit; before = cursor }))
      ]
    ]
  ]
