-- ===== src/Indexer/Ranger/Outcome.antt =====
-- What `FetchRange` returns when its goroutines have returned, whatever their order was.
use ethindexer.Common.{
  ℕ, zero, suc, ◌+◌, ◌-◌, ◌≤◌, ◌<◌, ◌≡◌, ◌⊎◌, inl, inr, List, [], ◌∷◌, Option, none, some, true,
  false, get_elem?, ℤ, length, arith, Option-cases, subst,
}
use ethindexer.Failure.{ok, Result-cases}
use ethindexer.Domain.{Hash, BlockBundle, uint64_size}
use ethindexer.Store.Validate.Replacement.{IsNumbered}
use ethindexer.Indexer.Fetcher.{Fetcher, fetch_block}
use ethindexer.Indexer.Ranger.{
  Worker, idle, stopped, fetching, Pool, Action, run, start, all_stopped, is_done, follows,
  validate_fetched_bundles, outcome, fetch_range,
}
use ethindexer.Indexer.Ranger.Invariant.{IsFilled, IsFetched, Inv}
use ethindexer.Indexer.Ranger.Range.{run-Inv, start-Inv}

-- Each block names the hash of the one before it as its parent's.
abbrev pub IsLinkedFrom : Option Hash → List BlockBundle → Type 0
IsLinkedFrom previous [] = Unit
IsLinkedFrom previous (bundle ∷ rest) =
    (follows previous bundle ≡ true) × IsLinkedFrom (some bundle.block.hash) rest

all_stopped-get_elem? :
    (workers : List Worker) (w : ℕ) (s : Worker)
    → all_stopped workers ≡ true
    → get_elem? workers w ≡ some s
    → s ≡ stopped
all_stopped-get_elem? [] w s h at = cc
all_stopped-get_elem? (stopped ∷ workers) zero s h at = cc
all_stopped-get_elem? (stopped ∷ workers) (suc w) s h at = all_stopped-get_elem? workers w s h at
all_stopped-get_elem? (idle ∷ workers) w s h at = cc
all_stopped-get_elem? (fetching i n ∷ workers) w s h at = cc

validated :
    (bundles : List BlockBundle) (from i : ℕ) (previous : Option Hash)
    → from + i + length bundles ≤ uint64_size
    → validate_fetched_bundles from i previous bundles ≡ ok tt
    → IsNumbered (from + i) bundles × IsLinkedFrom previous bundles
unfolding validate_fetched_bundles
validated [] from i previous small h = (tt, tt)
validated (bundle ∷ rest) from i previous small h =
    let (numbered, linked) =
      validated rest from (suc i) (some bundle.block.hash) (ground (arith, small))
        (ground (arith, h)) in
    (
      (ground (arith, h), subst (λ n. IsNumbered n rest) (omega arith) numbered),
      (ground (arith, h), linked),
    )

module _ (f : Fetcher) (from count : ℕ) (small : from + count ≤ uint64_size) where
  -- A run that ends without an error has filled every slot.
  pub done-IsFilled :
      (p : Pool)
      → Inv f from count small p
      → is_done p ≡ true
      → p.failure ≡ none
      → p.parent ≡ none
      → (i : ℕ) → i < count
      → IsFilled f from count small i p
  done-IsFilled p inv done no_failure no_parent i lt =
      filled (inv.handed alive i (ground (arith, inv.ended)))
    where
      alive : p.cancelled ≡ false
      alive = ground (arith, inv.reason)

      filled :
          IsFilled f from count small i p ⊎ IsFetched f from count small i p
          → IsFilled f from count small i p
      filled (inl there) = there
      filled (inr (w, n, busy)) =
          absurd (ground (arith, all_stopped-get_elem? p.workers w (fetching i n), busy))

  outcome-eq-ok :
      (p : Pool) (bundles : List BlockBundle)
      → outcome from p ≡ ok bundles
      → (p.failure ≡ none)
        × (p.parent ≡ none)
        × (validate_fetched_bundles from 0 none p.bundles ≡ ok tt)
        × (p.bundles ≡ bundles)
  unfolding outcome
  outcome-eq-ok p bundles h = elim (Option-cases p.failure) [
    | inl fine ↦ elim (Option-cases p.parent) [
      | inl live ↦ elim (Result-cases (validate_fetched_bundles from 0 none p.bundles)) [
        | inl (_, valid) ↦ (fine, live, valid, ground (arith, h))
        | inr (e, bad) ↦ absurd (ground (arith, h))
      ]
      | inr (e, over) ↦ absurd (ground (arith, h))
    ]
    | inr (e, failed) ↦ absurd (ground (arith, h))
  ]

-- The parts of a complete run that returns a range.
pub fetch_range-eq-ok :
    (f : Fetcher) (from to : ℕ) (concurrency : ℤ) (actions : List Action)
    (bundles : List BlockBundle)
    → fetch_range f from to concurrency actions ≡ some (ok bundles)
    → (from ≤ to)
      × ((p : Pool) × (run f from (to - from + 1) actions (start concurrency (to - from + 1))
            ≡ some p)
          × (is_done p ≡ true)
          × (outcome from p ≡ ok bundles))
unfolding fetch_range
fetch_range-eq-ok f from to concurrency actions bundles h =
    elim (Option-cases (run f from (to - from + 1) actions (start concurrency (to - from + 1)))) [
      | inl stuck ↦ absurd (ground (arith, h))
      | inr (p, is) ↦ (ground (arith, h), (p, is, ground (arith, h), ground (arith, h)))
    ]

pub fetch_range-IsNumbered :
    (f : Fetcher) (from to : ℕ) (concurrency : ℤ) (actions : List Action)
    (bundles : List BlockBundle)
    → to < uint64_size
    → fetch_range f from to concurrency actions ≡ some (ok bundles)
    → (length bundles ≡ to - from + 1)
      × IsNumbered from bundles
      × IsLinkedFrom none bundles
      × ((i : ℕ)
          → i < to - from + 1
          → (b : BlockBundle) × (get_elem? bundles i ≡ some b) × (fetch_block f (from + i) ≡ ok b))
fetch_range-IsNumbered f from to concurrency actions bundles small h =
    let (ordered, (p, ran, done, result)) =
      fetch_range-eq-ok f from to concurrency actions bundles h in
    let fits : from + (to - from + 1) ≤ uint64_size = omega (arith, small, ordered) in
    let inv =
      run-Inv f from (to - from + 1) fits actions (start concurrency (to - from + 1)) p ran
        (start-Inv f from (to - from + 1) fits concurrency (omega arith)) in
    let (fine, live, valid, same) = outcome-eq-ok f from (to - from + 1) fits p bundles result in
    let (numbered, linked) =
      validated p.bundles from 0 none (omega (arith, inv.size, fits)) valid in
    (
      rw same at inv.size,
      subst (λ n. IsNumbered n bundles) (omega arith) (rw same at numbered),
      rw same at linked,
      λ i lt.
          let (b, at, is) = done-IsFilled f from (to - from + 1) fits p inv done fine live i lt in
          (b, rw same at at, is),
    )
