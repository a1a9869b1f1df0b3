-- ===== src/Runtime.antt =====
-- `runServices` of cmd/indexer/runtime.go: the indexer, the HTTP server and its shutdown as three
-- goroutines of an `errgroup`, whose context ends with the caller's or with the first error. The order
-- in which they return is a list of actions.
pub mod Stopping
use ethindexer.Common.{
  ℕ, List, [], ◌∷◌, Option, none, some, Bool, true, false, not, ◌&&◌, ◌||◌, if◌then◌else◌, is_some,
}
use ethindexer.Failure.{
  Error, Context, matches, canceled, deadline_exceeded, indexer_stopped, http_stopped,
  server_closed,
}

pub record Services : Type 0 where
  pub caller : Context  -- `ctx.Err()`
  pub group : Context  -- `groupCtx.Err()`
  pub first : Option Error  -- the error that the group keeps
  pub indexer_done : Bool
  pub http_done : Bool
  pub shutdown_done : Bool

-- The caller's context ends, or a call returns with its error, if any.
pub data Action : Type 0 where
  end_caller : Error → Action
  indexer_returns http_returns shutdown_returns : Option Error → Action

abbrev is_context_error : Error → Error → Bool
is_context_error canceled canceled = true
is_context_error deadline_exceeded deadline_exceeded = true
is_context_error _ _ = false

abbrev is_server_closed : Error → Bool
is_server_closed server_closed = true
is_server_closed _ = false

-- What the goroutine of the indexer returns.
unfoldable pub indexer_result : Context → Option Error → Option Error
indexer_result none none = some indexer_stopped
indexer_result none (some e) = some e
indexer_result (some ended) none = none
indexer_result (some ended) (some e) = if matches (is_context_error ended) e then none else some e

-- What the goroutine of the HTTP server returns.
unfoldable pub http_result : Context → Option Error → Option Error
http_result group none = some http_stopped
http_result group (some e) =
    if is_some group && matches is_server_closed e
    then none
    else (if matches is_server_closed e then some http_stopped else some e)

-- What the goroutine of the shutdown returns.
unfoldable pub shutdown_result : Option Error → Option Error
shutdown_result none = none
shutdown_result (some e) = if matches is_server_closed e then none else some e

-- A goroutine returns: the group keeps the first error and ends its context.
abbrev pub returned : Option Error → Services → Services
returned none s = s
returned (some e) s = record s {
  first = elim s.first [ none ↦ some e | some earlier ↦ some earlier ];
  group = elim s.group [ none ↦ some canceled | some ended ↦ some ended ];
}

abbrev ended_with : Error → Services → Services
ended_with e s = record s {
  caller = some e;
  group = elim s.group [ none ↦ some e | some ended ↦ some ended ];
}

-- none is an action that is not possible: a goroutine returns once, and the shutdown begins when the
-- group's context has ended.
unfoldable pub step : Action → Services → Option Services
step (end_caller e) s = if is_some s.caller then none else some (ended_with e s)
step (indexer_returns r) s =
    if s.indexer_done
    then none
    else some (returned (indexer_result s.group r) (record s { indexer_done = true }))
step (http_returns r) s =
    if s.http_done
    then none
    else some (returned (http_result s.group r) (record s { http_done = true }))
step (shutdown_returns r) s =
    if s.shutdown_done || not (is_some s.group)
    then none
    else some (returned (shutdown_result r) (record s { shutdown_done = true }))

unfoldable pub run : List Action → Services → Option Services
run [] s = some s
run (action ∷ actions) s = elim (step action s) [ none ↦ none | some s' ↦ run actions s' ]

abbrev pub start : Services
start = record {
  caller = none;
  group = none;
  first = none;
  indexer_done = false;
  http_done = false;
  shutdown_done = false;
}

-- `group.Wait()`: none while a goroutine runs.
unfoldable pub wait : Services → Option (Option Error)
wait s = if s.indexer_done && (s.http_done && s.shutdown_done) then some s.first else none
