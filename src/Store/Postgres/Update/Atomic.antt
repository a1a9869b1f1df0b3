-- ===== src/Store/Postgres/Update/Atomic.antt =====
-- What the statements of `ApplyCanonicalUpdate` of the PostgreSQL store, run one by one on an open
-- transaction, make of the database.
use ethindexer.Common.{
  ◌≡◌, ◌⊎◌, refl, sym, subst, Bool, false, Option, inl, inr, none, some, true, arith, Option-cases,
}
use ethindexer.Failure.{Error, Result, ok, err, ◌>>=◌, Result-cases}
use ethindexer.Domain.{CanonicalUpdate}
use ethindexer.Store.Postgres.Driver.{Driver}
use ethindexer.Store.Postgres.Tables.{Tables}
use ethindexer.Store.Postgres.Validation.{validate_postgres_update}
use ethindexer.Store.Postgres.Session.{Session, Outcome, and_then, exec, commit, deferred_rollback}
use ethindexer.Store.Postgres.Update.{
  Faults, lock_writer, check_chain, delete_replaced, check_retained_parent, insert_blocks,
  record_sync, in_transaction, write_update, apply_in_session, apply_canonical_update,
}

module _ (driver : Driver) (faults : Faults) (update : CanonicalUpdate) where
  -- Every statement of the transaction was executed without an error and led to these tables.
  abbrev pub IsDone : Tables → Tables → Type 0
  IsDone tables new =
      (validate_postgres_update update ≡ ok tt)
      × (in_transaction driver faults update tables ≡ ok new)

  abbrev within : Tables → Tables → Session
  within kept tables = record { committed = kept; working = some tables }

  -- What is left to run ends as the result says: with its error and nothing committed, or at the
  -- commit of its tables.
  abbrev Ends : Tables → Result Tables → Outcome → Type 0
  Ends kept (err e) outcome = (outcome.0.committed ≡ kept) × (outcome.1 ≡ some e)
  Ends kept (ok tables) outcome = outcome ≡ commit faults.at_commit (within kept tables)

  exec-Ends :
      (statement rest : Tables → Result Tables) (next : Session → Outcome) (kept tables : Tables)
      → ((t : Tables) → Ends kept (rest t) (next (within kept t)))
      → Ends kept (statement tables >>= rest) (and_then (exec statement (within kept tables)) next)
  exec-Ends statement rest next kept tables h = elim (Result-cases (statement tables)) [
    | inl (t, worked) ↦ rw worked (h t)
    | inr (e, failed) ↦ rw failed (refl, refl)
  ]

  last-Ends :
      (statement : Tables → Result Tables) (kept tables : Tables)
      → Ends kept
          (statement tables)
          (and_then (exec statement (within kept tables)) (commit faults.at_commit))
  last-Ends statement kept tables = elim (Result-cases (statement tables)) [
    | inl (t, worked) ↦ rw worked refl
    | inr (e, failed) ↦ rw failed (refl, refl)
  ]

  write_update-Ends :
      (kept tables : Tables)
      → Ends kept
          (in_transaction driver faults update tables)
          (write_update driver faults update (within kept tables))
  unfolding in_transaction write_update
  write_update-Ends kept tables = exec-Ends (lock_writer driver faults) _ _ kept tables λ t₁.
      exec-Ends (check_chain driver faults update) _ _ kept t₁ λ t₂.
        exec-Ends (delete_replaced driver faults update) _ _ kept t₂ λ t₃.
          exec-Ends (check_retained_parent driver faults update) _ _ kept t₃ λ t₄.
            exec-Ends (insert_blocks driver faults update) _ _ kept t₄
              λ t₅. last-Ends (record_sync driver faults update) kept t₅

  -- What a write has come to: no transaction is left open, and what is committed is either carried
  -- out or the old tables; with an error it is carried out only if the commit's answer was lost.
  pub record IsSettled (Written : Tables → Type 0) (tables : Tables) (after : Outcome)
      : Type 0 where
    pub closed : after.0.working ≡ none
    pub settled :
        ((after.1 ≡ none) × Written after.0.committed)
        ⊎ ((e : Error) × (after.1 ≡ some e)
            × ((after.0.committed ≡ tables)
                ⊎ ((faults.at_commit ≡ some (e, true)) × Written after.0.committed)))

  pub map-IsSettled :
      (P Q : Tables → Type 0) (tables : Tables) (after : Outcome)
      → ((t : Tables) → P t → Q t)
      → IsSettled P tables after
      → IsSettled Q tables after
  map-IsSettled P Q tables after weaken s = record { closed = s.closed; settled = each s.settled }
    where
      each :
          ((after.1 ≡ none) × P after.0.committed)
            ⊎ ((e : Error) × (after.1 ≡ some e)
                × ((after.0.committed ≡ tables)
                    ⊎ ((faults.at_commit ≡ some (e, true)) × P after.0.committed)))
          → ((after.1 ≡ none) × Q after.0.committed)
            ⊎ ((e : Error) × (after.1 ≡ some e)
                × ((after.0.committed ≡ tables)
                    ⊎ ((faults.at_commit ≡ some (e, true)) × Q after.0.committed)))
      each (inl (fine, is)) = inl (fine, weaken after.0.committed is)
      each (inr (e, failed, inl same)) = inr (e, failed, inl same)
      each (inr (e, failed, inr (lost, is))) =
          inr (e, failed, inr (lost, weaken after.0.committed is))

  commit-IsSettled :
      (tables new : Tables) (fault : Option (Error × Bool))
      → faults.at_commit ≡ fault
      → IsDone tables new
      → IsSettled (IsDone tables) tables (deferred_rollback (commit fault (within tables new)))
  commit-IsSettled tables new none same is = record { closed = refl; settled = inl (refl, is) }
  commit-IsSettled tables new (some (e, true)) same is = record {
    closed = refl;
    settled = inr (e, refl, inr (same, is));
  }
  commit-IsSettled tables new (some (e, false)) same is = record {
    closed = refl;
    settled = inr (e, refl, inl refl);
  }

  run-IsSettled :
      (tables : Tables) (result : Result Tables) (outcome : Outcome)
      → validate_postgres_update update ≡ ok tt
      → in_transaction driver faults update tables ≡ result
      → Ends tables result outcome
      → IsSettled (IsDone tables) tables (deferred_rollback outcome)
  run-IsSettled tables (err e) outcome passed is (kept, failed) = record {
    closed = refl;
    settled = inr (e, failed, inl kept);
  }
  run-IsSettled tables (ok new) outcome passed is ends =
      subst (λ o. IsSettled (IsDone tables) tables (deferred_rollback o)) (sym ends)
        (commit-IsSettled tables new faults.at_commit refl (passed, is))

  pub apply_in_session-IsSettled :
      (tables : Tables)
      → IsSettled
          (IsDone tables)
          tables
          (apply_in_session driver faults update (record { committed = tables; working = none }))
  unfolding apply_in_session
  apply_in_session-IsSettled tables =
      let start : Session = record { committed = tables; working = none } in
      elim (Result-cases (validate_postgres_update update)) [
        | inr (e, refused) ↦
            subst (IsSettled (IsDone tables) tables) {x = (start, some e)} (ground (arith, refused))
              (record { closed = refl; settled = inr (e, refl, inl refl) })
        | inl (done, passed) ↦ elim (Option-cases faults.at_begin) [
          | inr (e, broken) ↦
              subst (IsSettled (IsDone tables) tables) {x = (start, some e)}
                (ground (arith, passed, broken))
                (record { closed = refl; settled = inr (e, refl, inl refl) })
          | inl begun ↦
              subst (IsSettled (IsDone tables) tables)
                {x = deferred_rollback (write_update driver faults update (within tables tables))}
                (ground (arith, passed, begun))
                (run-IsSettled tables _ (write_update driver faults update (within tables tables))
                  passed refl (write_update-Ends tables tables))
        ]
      ]

  -- A write that returns no error has carried out the whole update.
  pub apply_canonical_update_whole :
      (tables : Tables)
      → (apply_canonical_update driver faults update tables).1 ≡ none
      → IsDone tables (apply_canonical_update driver faults update tables).0
  unfolding apply_canonical_update
  apply_canonical_update_whole tables h = elim (apply_in_session-IsSettled tables).settled [
    | inl (fine, is) ↦ is
    | inr (e, failed, rest) ↦ absurd (ground (arith, h, failed))
  ]
