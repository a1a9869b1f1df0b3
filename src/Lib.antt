-- ===== src/Lib.antt =====
-- A model of the Ethereum indexer: a service that polls a node for the latest blocks, keeps a short
-- window of them with their transactions and events, repairs the window when the chain is
-- reorganized, and answers queries about it over HTTP.
--
-- How the parts interact. `Run` (internal/indexer/runner.go) calls `SyncOnce` with retries and polls.
-- `SyncOnce` (internal/indexer/syncer.go) reads the selected head from the node, compares the stored
-- tip with the chain, fetches the blocks that are missing or replaced with `FetchRange`
-- (internal/indexer/ranger.go), whose workers call `FetchBlock` (internal/indexer/fetcher.go), and
-- writes one canonical update to an `IndexStore` (internal/store/store.go). Two stores implement it and
-- the queries of the API: the in-memory store (internal/store/memory.go) and the PostgreSQL store
-- (internal/store/postgres*.go). The handlers of internal/server parse a request, ask the service of
-- internal/service, which asks a `QueryStore`, and make the response.
--
-- Which file models which part:
--   Common, and its children: numbers, lists and maps (a Go map is an association list in the order
--     in which Go would iterate over it), integers, stable sorting, byte strings.
--   Failure: the error values and results. An error that is wrapped with a text is itself;
--     two that are wrapped together are `joined`.
--   Domain: internal/domain. Hashes, addresses and times are numbers; `*big.Int` is an optional
--     integer; a uint32 or uint64 is a number, and its arithmetic has its `%` written out.
--   Ethereum: the interface `Reader` of internal/ethereum/client.go and the answers of go-ethereum,
--     whose functions (the signer, the hashes) are parameters.
--   Store: the interface `IndexStore`. Store.Validate has `validateReplacement` and
--     `validateCanonicalBundles` of memory.go, and Store.Canonical what the second one accepts.
--     Store.Memory has the state, the tip and `ApplyCanonicalUpdate`, its children the copies
--     (Clone), the queries (Queries) and the implementation of `IndexStore` (Interface). The lock
--     makes each method one step on the state; `ctx.Err()` is an argument.
--   Store.Postgres: the PostgreSQL store. Columns and Rows have the conversions of
--     postgres_indexer.go and postgres_scan.go; Validation has `validatePostgresUpdate`; Tables has the
--     tables of migrations/000001_initial.up.sql and each SQL statement of the write as a function of
--     them; Session has a transaction with its commit and its deferred rollback; Update has
--     `ApplyCanonicalUpdate` with its batches; Reads and Events have the queries. `Driver` stands for the representation in which a value comes back,
--     `Faults` for the errors that the calls of the database return by themselves.
--   Service: internal/service, over a store as an interface; Service.Backed puts the in-memory store
--     behind it.
--   Server: internal/server. Numbers, Base64, Cursor and Hex have the texts of requests and responses,
--     Responses the bodies, Handlers the five handlers. A string is the list of its bytes.
--     go-ethereum's hexadecimal functions are the parameter `Hex`.
--   Indexer.Fetcher: `FetchBlock` with `mapTransactions` and `mapEvents`.
--   Indexer.Ranger: `FetchRange`. Its producer, its workers, the channel of errors and the two
--     contexts are one state; `step` says what each goroutine can do next, and a run is a list of
--     actions, in any order. Ranger.Interface makes a fetcher and a schedule of its goroutines the
--     `RangeFetcher` that the syncer takes.
--   Indexer.Syncer, Indexer.Plan, Indexer.Once: syncer.go, in this order: the records and the head,
--     `replacementStart` with `commonAncestor`, and `SyncOnce`.
--   Indexer.Runner: runner.go. The synchronization, the timer and the context are arbitrary functions
--     on a state, so a theorem holds for whatever they do.
--   Config: the configuration of internal/config/config.go and its `Validate`, and the part of
--     cmd/indexer/main.go that hands it to the syncer.
--   Runtime: `runServices` of cmd/indexer/runtime.go. Its goroutines are one state, and the order in
--     which their calls return is a list of actions.
--   Examples: concrete data and runs.
--
-- Bounds and fuel. The search for a common ancestor counts the steps down to `retainFrom`, which it
-- never passes because the callers have checked that the stored tip is not below it. The retry loop
-- counts the retries that are left. The polling loop has no end of its own, so its model takes the
-- number of cycles to look at and says whether it still runs. The printing of a number in decimal
-- counts one step for each digit, with more steps than the number has digits.
--
-- The tables. A SELECT, INSERT or DELETE is what PostgreSQL documents for it on rows without an order;
-- the constraints of the schema are written out, but for the sign of the numerics and for sync_state,
-- whose row is built from checked values. A transaction works on a copy of the committed tables of its
-- own; a commit makes that copy the committed tables and a rollback drops it. A panic is an error value of its own. Nil and empty byte
-- slices are one list, so whether the driver sends NULL for a nil slice is left open.
--
-- What is not modelled: the connection pool of the PostgreSQL store, the router, the middleware, the
-- JSON text and the request ids of the HTTP API, reading the configuration, the rest of the process
-- (cmd/indexer), the JSON-RPC client, logging, and the texts of errors. The result of a
-- synchronization that fails is its error alone: the code returns an empty result with it.
pub mod Common
pub mod Failure
pub mod Domain
pub mod Store
pub mod Service
pub mod Server
pub mod Ethereum
pub mod Indexer
pub mod Config
pub mod Runtime
pub mod Examples
