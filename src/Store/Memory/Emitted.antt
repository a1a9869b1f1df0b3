-- ===== src/Store/Memory/Emitted.antt =====
-- The events that `TransactionByHash` of internal/store/memory.go gives with a transaction.
use ethindexer.Common.{
  ℕ, suc, ◌≡◌, inl, inr, refl, List, [], ◌∷◌, some, Bool, true, false, ◌==◌, ltb, arith, get_elem?,
  sort_by, place, elem, Distinct, IsAscending, sort_by-IsAscending, All, All-get_elem?, All-sort_by,
  Bool-cases, subst,
}
use ethindexer.Domain.{Hash, Event, BlockBundle}
use ethindexer.Store.Validate.Events.{log_indexes}
use ethindexer.Store.Memory.Clone.{clone_event_lem}
use ethindexer.Store.Memory.Queries.{clone_matching, earlier_log, transaction_events}
use ethindexer.Store.Memory.Selection.{IsIn, clone_matching-IsIn, sort_by-IsIn}

-- The events of the block that name the transaction, all of them and no other, in ascending order
-- of their log indexes.
pub record IsEmitted (hash : Hash) (b : BlockBundle) (es : List Event) : Type 0 where
  pub ascending : IsAscending (log_indexes es)
  pub named : (i : ℕ) (e : Event) → get_elem? es i ≡ some e → e.transaction_hash ≡ hash
  pub stored : (i : ℕ) (e : Event) → get_elem? es i ≡ some e → IsIn e b.events
  pub complete :
      (i : ℕ) (e : Event) → get_elem? b.events i ≡ some e → e.transaction_hash ≡ hash → IsIn e es

log_indexes-place :
    (e : Event) (es : List Event)
    → log_indexes (place earlier_log e es) ≡ place ltb e.log_index (log_indexes es)
log_indexes-place e [] = refl
log_indexes-place e (x ∷ es) = ground (arith, log_indexes-place e es)

log_indexes-sort_by :
    (es : List Event) → log_indexes (sort_by earlier_log es) ≡ sort_by ltb (log_indexes es)
log_indexes-sort_by [] = refl
log_indexes-sort_by (e ∷ es) =
    ground (arith, log_indexes-place e (sort_by earlier_log es), log_indexes-sort_by es)

module _ (test : Event → Bool) where
  elem-matching :
      (n : ℕ) (es : List Event)
      → elem n (log_indexes es) ≡ false
      → elem n (log_indexes (clone_matching test es)) ≡ false
  unfolding clone_matching
  elem-matching n [] h = refl
  elem-matching n (e ∷ es) h = ground (arith, h, clone_event_lem e, elem-matching n es)

  matching-Distinct :
      (es : List Event)
      → Distinct (log_indexes es)
      → Distinct (log_indexes (clone_matching test es))
  unfolding clone_matching
  matching-Distinct [] d = tt
  matching-Distinct (e ∷ es) d = elim (Bool-cases (test e)) [
    | inl passes ↦
        subst (λ xs. Distinct (log_indexes xs)) {x = e ∷ clone_matching test es}
          (ground (arith, passes, clone_event_lem e))
          (elem-matching e.log_index es d.0, matching-Distinct es d.1)
    | inr fails ↦
        subst (λ xs. Distinct (log_indexes xs)) {x = clone_matching test es} (ground (arith, fails))
          (matching-Distinct es d.1)
  ]

  matching-All :
      (P : Event → Type 0) (es : List Event)
      → All P es
      → All (λ e. (test e ≡ true) × P e) (clone_matching test es)
  unfolding clone_matching
  matching-All P [] h = tt
  matching-All P (e ∷ es) (here, rest) = elim (Bool-cases (test e)) [
    | inl passes ↦
        subst (All (λ x. (test x ≡ true) × P x)) {x = e ∷ clone_matching test es}
          (ground (arith, passes, clone_event_lem e)) ((passes, here), matching-All P es rest)
    | inr fails ↦
        subst (All (λ x. (test x ≡ true) × P x)) {x = clone_matching test es}
          (ground (arith, fails)) (matching-All P es rest)
  ]

All-of :
    (P : Event → Type 0) (es : List Event)
    → ((i : ℕ) (e : Event) → get_elem? es i ≡ some e → P e)
    → All P es
All-of P [] h = tt
All-of P (e ∷ es) h = (h 0 e refl, All-of P es (λ i x at. h (suc i) x at))

module _ (hash : Hash) (b : BlockBundle) where
  emitted_all :
      All (λ e. ((e.transaction_hash == hash) ≡ true) × IsIn e b.events) (transaction_events hash b)
  unfolding transaction_events
  emitted_all =
      All-sort_by (λ e. ((e.transaction_hash == hash) ≡ true) × IsIn e b.events) earlier_log _
        (matching-All (λ event. event.transaction_hash == hash) (λ e. IsIn e b.events) b.events
          (All-of (λ e. IsIn e b.events) b.events (λ i e at. (i, at))))

  pub transaction_events-IsEmitted :
      Distinct (log_indexes b.events) → IsEmitted hash b (transaction_events hash b)
  unfolding transaction_events
  transaction_events-IsEmitted d =
      let matching = clone_matching (λ event. event.transaction_hash == hash) b.events in
      record {
        ascending =
            rw (log_indexes-sort_by matching)
              (sort_by-IsAscending (log_indexes matching) (matching-Distinct _ b.events d));
        named = λ i e at. ground (arith, (All-get_elem? _ _ i e emitted_all at).0);
        stored = λ i e at. (All-get_elem? _ _ i e emitted_all at).1;
        complete = λ i e at same.
            sort_by-IsIn earlier_log e matching
              (clone_matching-IsIn _ b.events i e at (ground (arith, same)));
      }
