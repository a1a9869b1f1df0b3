-- ===== src/Service/Backed.antt =====
-- internal/service on the in-memory store of internal/store/memory.go, at a context and a state.
use ethindexer.Failure.{alive, Context}
use ethindexer.Store.Memory.{Memory, canonical_tip}
use ethindexer.Store.Memory.Queries.{block_by_number, transaction_by_hash, events_by_address}
use ethindexer.Service.{QueryStore, ReadinessStore}

abbrev pub memory_query_store : Context → Memory → QueryStore
memory_query_store ctx m = record {
  block_by_number = λ number. block_by_number ctx number m.bundles;
  transaction_by_hash = λ hash. transaction_by_hash ctx hash m.bundles;
  events_by_address = λ query. events_by_address ctx query m.bundles;
}

abbrev pub memory_readiness_store : Context → Memory → ReadinessStore
memory_readiness_store ctx m = record { ping = alive ctx; canonical_tip = canonical_tip ctx m }
