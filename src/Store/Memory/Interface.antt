-- ===== src/Store/Memory/Interface.antt =====
-- The in-memory store as an `IndexStore`, for one reading of the context at each call.
use ethindexer.Common.{ℕ, ◌≡◌, Option, none, some}
use ethindexer.Failure.{Context, ok}
use ethindexer.Domain.{ChainTip}
use ethindexer.Store.{IndexStore}
use ethindexer.Store.Memory.{Memory, canonical_tip, canonical_hash, apply_canonical_update}

-- What `ctx.Err()` returns at the calls of one synchronization.
pub record Readings : Type 0 where
  pub at_tip : Context
  pub at_hash : ℕ → Context
  pub at_apply : Context

abbrev pub memory_store : Readings → IndexStore Memory
memory_store ctx = record {
  canonical_tip = canonical_tip ctx.at_tip;
  canonical_hash = λ number. canonical_hash (ctx.at_hash number) number;
  apply_canonical_update = apply_canonical_update ctx.at_apply;
}

-- A call that succeeds has found its context alive.
pub canonical_tip_alive :
    (ctx : Context) (m : Memory) (tip : Option ChainTip)
    → canonical_tip ctx m ≡ ok tip
    → canonical_tip none m ≡ ok tip
unfolding canonical_tip
canonical_tip_alive none m tip h = h
canonical_tip_alive (some e) m tip h = cc
