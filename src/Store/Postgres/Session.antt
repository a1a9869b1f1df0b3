-- ===== src/Store/Postgres/Session.antt =====
-- The transaction of `ApplyCanonicalUpdate` of internal/store/postgres_indexer.go: its begin, its
-- statements, its commit and its deferred rollback, each a step on what the connection sees.
use ethindexer.Common.{Option, none, some, Bool, if◌then◌else◌}
use ethindexer.Failure.{Error, Result, ok, err, Context}
use ethindexer.Store.Postgres.Tables.{Tables}

-- The database as the connection of a write sees it: the committed tables, and while a transaction
-- is open its own copy of them.
pub record Session : Type 0 where
  pub committed : Tables
  pub working : Option Tables

abbrev pub Outcome : Type 0
Outcome = Session × Option Error

-- The tables that a statement works on: outside a transaction it works on the committed ones.
abbrev pub visible : Session → Tables
visible session = elim session.working [ none ↦ session.committed | some tables ↦ tables ]

abbrev pub put : Tables → Session → Session
put tables session = elim session.working [
  | none ↦ record session { committed = tables }
  | some old ↦ record session { working = some tables }
]

abbrev pub exec_done : Session → Result Tables → Outcome
exec_done session (err e) = (session, some e)
exec_done session (ok tables) = (put tables session, none)

abbrev pub exec : (Tables → Result Tables) → Session → Outcome
exec statement session = exec_done session (statement (visible session))

-- The rest of a function behind `if err != nil { return err }`.
abbrev pub and_then : Outcome → (Session → Outcome) → Outcome
and_then (session, some e) next = (session, some e)
and_then (session, none) next = next session

abbrev pub begin_tx : Context → Session → Outcome
begin_tx (some e) session = (session, some e)
begin_tx none session = (record session { working = some session.committed }, none)

abbrev pub commit : Option (Error × Bool) → Session → Outcome
commit none session = (record { committed = visible session; working = none }, none)
commit (some (e, applied)) session =
    (if applied then record { committed = visible session; working = none } else session, some e)

-- A rollback does nothing where no transaction is open.
abbrev pub rollback : Session → Session
rollback session = record session { working = none }

-- `defer func() { _ = tx.Rollback(ctx) }()`
abbrev pub deferred_rollback : Outcome → Outcome
deferred_rollback (session, outcome) = (rollback session, outcome)
