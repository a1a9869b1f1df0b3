-- ===== src/Indexer/Ranger/Interface.antt =====
-- A `Fetcher` as the syncer uses it: `FetchRange` under the schedule of its goroutines.
use ethindexer.Common.{
  ℕ, ◌≤◌, ◌<◌, ◌≡◌, inl, inr, ◌+◌, ◌-◌, ◌∙◌, ap, refl, List, [], some, ltb, leb, ℤ, arith,
  Bool-cases, length,
}
use ethindexer.Failure.{Result, ok, err, invalid_low_fetch_range, invalid_large_fetch_range}
use ethindexer.Domain.{BlockBundle, uint64_size}
use ethindexer.Store.Validate.Replacement.{IsNumbered}
use ethindexer.Indexer.Fetcher.{Fetcher}
use ethindexer.Indexer.Syncer.{RangeFetcher}
use ethindexer.Indexer.Ranger.{Action, fetch_range, run, start, max_int}
use ethindexer.Indexer.Ranger.Outcome.{fetch_range-IsNumbered, fetch_range-eq-ok}
use ethindexer.Indexer.Ranger.Completion.{fetch_range_completes}

-- For each range and number of workers, the actions of the goroutines and what they return.
pub record Schedule (f : Fetcher) : Type 0 where
  pub actions : ℕ → ℕ → ℤ → List Action
  pub result : ℕ → ℕ → ℤ → Result (List BlockBundle)
  pub returns :
      (from to : ℕ) (concurrency : ℤ)
      → to < uint64_size
      → fetch_range f from to concurrency (actions from to concurrency)
        ≡ some (result from to concurrency)

pub scheduled-IsNumbered :
    (f : Fetcher) (schedule : Schedule f) (from to : ℕ) (concurrency : ℤ)
    (bundles : List BlockBundle)
    → to < uint64_size
    → schedule.result from to concurrency ≡ ok bundles
    → (from ≤ to) × (length bundles ≡ to - from + 1) × IsNumbered from bundles
scheduled-IsNumbered f schedule from to concurrency bundles small h =
    let actions = schedule.actions from to concurrency in
    let range : fetch_range f from to concurrency actions ≡ some (ok bundles) =
      schedule.returns from to concurrency small ∙ ap some h in
    let (size, numbered, _, _) =
      fetch_range-IsNumbered f from to concurrency actions bundles small range in
    ((fetch_range-eq-ok f from to concurrency actions bundles range).0, size, numbered)

abbrev pub scheduled_fetcher : (f : Fetcher) → Schedule f → RangeFetcher
scheduled_fetcher f schedule = record {
  chain_id = some f.chain_id;
  fetch_range = schedule.result;
  fetch_range_numbered = scheduled-IsNumbered f schedule;
}

-- Some actions of the goroutines end in a result.
Returns : Fetcher → ℕ → ℕ → ℤ → Type 0
Returns f from to concurrency =
    (actions : List Action) × (r : Result (List BlockBundle)) × (to < uint64_size
      → fetch_range f from to concurrency actions ≡ some r)

accepted_Returns :
    (f : Fetcher) (from to : ℕ) (concurrency : ℤ)
    → from ≤ to
    → to < uint64_size
    → to - from < max_int
    → Returns f from to concurrency
unfolding run Returns
accepted_Returns f from to concurrency ordered small fits =
    let (actions, r, is) =
      fetch_range_completes f from to concurrency [] (start concurrency (to - from + 1)) ordered
        small fits refl in
    (actions, r, λ _. is)

some_Returns : (f : Fetcher) (from to : ℕ) (concurrency : ℤ) → Returns f from to concurrency
unfolding fetch_range Returns
some_Returns f from to concurrency = elim (Bool-cases (ltb to uint64_size)) [
  | inr large ↦ ([], ok [], λ small. absurd (ground arith))
  | inl small ↦ elim (Bool-cases (ltb to from)) [
    | inl low ↦ ([], err invalid_low_fetch_range, λ _. ground arith)
    | inr ordered ↦ elim (Bool-cases (leb max_int (to - from))) [
      | inl large ↦ ([], err invalid_large_fetch_range, λ _. ground arith)
      | inr fits ↦
          accepted_Returns f from to concurrency (ground arith) (ground arith) (ground arith)
    ]
  ]
]

-- Every fetcher has a schedule under which all its ranges return.
pub fetcher-Schedule : (f : Fetcher) → Schedule f
unfolding Returns
fetcher-Schedule f = record {
  actions = λ from to concurrency. (some_Returns f from to concurrency).0;
  result = λ from to concurrency. (some_Returns f from to concurrency).1;
  returns = λ from to concurrency. (some_Returns f from to concurrency).2;
}
