-- ===== src/Store.antt =====
-- internal/store: the write contract that the indexer requires of a store, the in-memory store
-- and the PostgreSQL store.
pub mod Validate
pub mod Memory
pub mod Canonical
pub mod Postgres
use ethindexer.Common.{ℕ, Option}
use ethindexer.Failure.{Error, Result}
use ethindexer.Domain.{Hash, ChainTip, CanonicalUpdate}

-- The interface `IndexStore`, over a store's state `S`: `canonical_tip` is none on an empty store.
-- A write returns the state that it leaves and its error, if any.
pub record IndexStore (S : Type 0) : Type 0 where
  pub canonical_tip : S → Result (Option ChainTip)
  pub canonical_hash : ℕ → S → Result Hash
  pub apply_canonical_update : CanonicalUpdate → S → S × Option Error
