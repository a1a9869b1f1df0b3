-- ===== src/Store/Postgres/Update/Whole.antt =====
-- That `ApplyCanonicalUpdate` of the PostgreSQL store takes effect as a whole or not at all.
use ethindexer.Common.{ℕ, ◌-◌, ◌<◌, ◌≡◌, none, some, get_elem?, ltb, if◌then◌else◌}
use ethindexer.Failure.{err, not_found}
use ethindexer.Domain.{BlockBundle, CanonicalUpdate, uint256_size}
use ethindexer.Store.Postgres.Driver.{Driver}
use ethindexer.Store.Postgres.Tables.{Tables}
use ethindexer.Store.Postgres.Reads.{canonical_hash}
use ethindexer.Store.Postgres.Update.{Faults, apply_in_session}
use ethindexer.Store.Postgres.Update.Atomic.{
  IsSettled, map-IsSettled, IsDone, apply_in_session-IsSettled,
}
use ethindexer.Store.Postgres.Update.Refines.{hash_or_missing, canonical_hash-apply}

-- At every number `new` gives nothing below `RetainFrom`, what `old` gives from there up to
-- `ReplaceFrom`, and from there on the hashes of the update's blocks.
abbrev pub IsWritten : CanonicalUpdate → Tables → Tables → Type 0
IsWritten update old new =
    (k : ℕ)
    → canonical_hash none k new ≡ (
        if ltb k update.retain_from
        then err not_found
        else (if ltb k update.replace_from
            then canonical_hash none k old
            else hash_or_missing (get_elem? update.blocks (k - update.replace_from))))

-- A write of an update whose hashes have 32 bytes leaves no transaction open, whatever call of the
-- database fails. Without an error the committed tables give at every number the hash that the update
-- puts there; with an error the committed tables are the old ones, unless it is the commit that
-- failed although the database had carried it out: then they are written like without an error.
pub apply_in_session-IsWritten :
    (driver : Driver) (faults : Faults) (update : CanonicalUpdate) (tables : Tables)
    → ((i : ℕ) (b : BlockBundle) → get_elem? update.blocks i ≡ some b → b.block.hash < uint256_size)
    → IsSettled driver faults update
        (IsWritten update tables)
        tables
        (apply_in_session driver faults update (record { committed = tables; working = none }))
apply_in_session-IsWritten driver faults update tables fits =
    map-IsSettled driver faults update (IsDone driver faults update tables)
      (IsWritten update tables) tables
      (apply_in_session driver faults update (record { committed = tables; working = none }))
      (λ new done k. canonical_hash-apply driver faults update tables new done k fits)
      (apply_in_session-IsSettled driver faults update tables)
