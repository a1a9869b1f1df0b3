-- ===== src/Indexer/Ranger/Completion.antt =====
-- Every run of `FetchRange` can be completed, and none is longer than a bound.
use ethindexer.Common.{
  ℕ, zero, suc, ◌+◌, ◌*◌, ◌-◌, ◌≤◌, ◌<◌, ◌≡◌, ◌⊎◌, inl, inr, refl, List, [], ◌∷◌, ◌++◌, some, true,
  false, ◌||◌, ◌==◌, get_elem?, is_some, length, ℤ, arith, Bool-cases, Option-cases,
}
use ethindexer.Failure.{Result}
use ethindexer.Domain.{BlockBundle, uint64_size}
use ethindexer.Indexer.Fetcher.{Fetcher}
use ethindexer.Indexer.Ranger.{
  Worker, idle, stopped, fetching, Pool, Action, hand, finish, quit, close, step, run, start,
  worker_count, all_stopped, is_done, outcome, fetch_range, max_int,
}
use ethindexer.Indexer.Ranger.Invariant.{Inv}
use ethindexer.Indexer.Ranger.Range.{step-Inv, run-Inv, start-Inv}
use ethindexer.Indexer.Ranger.Progress.{remaining, step_less, run_bounded, all_to_do-replicate}

worker_cases :
    (workers : List Worker)
    → ((w : ℕ) × (i : ℕ) × (n : ℕ) × (get_elem? workers w ≡ some (fetching i n)))
      ⊎ (((w : ℕ) × (get_elem? workers w ≡ some idle)) ⊎ (all_stopped workers ≡ true))
worker_cases [] = inr (inr refl)
worker_cases (idle ∷ workers) = inr (inl (zero, refl))
worker_cases (fetching i n ∷ workers) = inl (zero, i, n, refl)
worker_cases (stopped ∷ workers) = elim (worker_cases workers) [
  | inl (w, i, n, at) ↦ inl (suc w, i, n, at)
  | inr (inl (w, at)) ↦ inr (inl (suc w, at))
  | inr (inr all) ↦ inr (inr all)
]

some_stopped :
    (workers : List Worker)
    → 1 ≤ length workers
    → all_stopped workers ≡ true
    → get_elem? workers 0 ≡ some stopped
some_stopped [] h all = absurd (ground arith)
some_stopped (idle ∷ workers) h all = absurd (ground arith)
some_stopped (fetching i n ∷ workers) h all = absurd (ground arith)
some_stopped (stopped ∷ workers) h all = refl

module _ (f : Fetcher) (from count : ℕ) (small : from + count ≤ uint64_size) where
  -- An action that the goroutines take without help from outside.
  abbrev Moves : Pool → Type 0
  Moves p = (a : Action) × (is_some (step f from count a p) ≡ true)

  idle-Moves :
      (w : ℕ) (p : Pool) → Inv f from count small p → get_elem? p.workers w ≡ some idle → Moves p
  unfolding step
  idle-Moves w p inv at = elim (Bool-cases p.producing) [
    | inr over ↦ (quit w, ground (arith, at))
    | inl on ↦ elim (Bool-cases (p.next == count || p.cancelled)) [
      | inl over ↦ (close, ground arith)
      | inr more ↦ (hand w, ground (arith, at, inv.bound))
    ]
  ]

  pool-Moves : (p : Pool) → Inv f from count small p → is_done p ≡ false → Moves p
  unfolding step
  pool-Moves p inv more = elim (worker_cases p.workers) [
    | inl (w, i, n, at) ↦ (finish w, ground (arith, at))
    | inr (inl (w, at)) ↦ idle-Moves w p inv at
    | inr (inr all) ↦ (close, ground (arith, inv.stops 0 (some_stopped p.workers inv.staffed all)))
  ]

  taken : (p : Pool) → Moves p → (a : Action) × (q : Pool) × (step f from count a p ≡ some q)
  taken p (a, moves) = elim (Option-cases (step f from count a p)) [
    | inl stuck ↦ absurd (ground arith)
    | inr (q, is) ↦ (a, q, is)
  ]

  -- It comes to an end, whatever happened before.
  abbrev Ends : Pool → Type 0
  Ends p =
      (rest : List Action) × (q : Pool) × (run f from count rest p ≡ some q) × (is_done q ≡ true)

  pool_completes :
      (n : ℕ) (p : Pool) → remaining f from count p ≤ n → Inv f from count small p → Ends p
  unfolding run
  pool_completes zero p enough inv = elim (Bool-cases (is_done p)) [
    | inl done ↦ ([], p, refl, done)
    | inr more ↦
        let (a, q, moved) = taken p (pool-Moves p inv more) in
        absurd (omega (arith, enough, step_less f from count a p q moved))
  ]
  pool_completes (suc n) p enough inv = elim (Bool-cases (is_done p)) [
    | inl done ↦ ([], p, refl, done)
    | inr more ↦
        let (a, q, moved) = taken p (pool-Moves p inv more) in
        let (rest, r, ran, done) =
          pool_completes n q (omega (arith, enough, step_less f from count a p q moved))
            (step-Inv f from count small a p q moved inv) in
        (a ∷ rest, r, ground (arith, moved, ran), done)
  ]

  run-append :
      (before after : List Action) (p q : Pool)
      → run f from count before p ≡ some q
      → run f from count (before ++ after) p ≡ run f from count after q
  unfolding run
  run-append [] after p q h = ground (arith, h)
  run-append (a ∷ before) after p q h = elim (Option-cases (step f from count a p)) [
    | inl stuck ↦ absurd (ground (arith, h, stuck))
    | inr (r, is) ↦ ground (arith, is, run-append before after r q (ground (arith, h, is)))
  ]

-- The goroutines of `FetchRange` never wait for one another for ever: on a range that it accepts,
-- any actions that they have taken can be followed by others that end in a result.
pub fetch_range_completes :
    (f : Fetcher) (from to : ℕ) (concurrency : ℤ) (before : List Action) (p : Pool)
    → from ≤ to
    → to < uint64_size
    → to - from < max_int
    → run f from (to - from + 1) before (start concurrency (to - from + 1)) ≡ some p
    → (after : List Action) × (r : Result (List BlockBundle)) × (fetch_range f from to concurrency
          (before ++ after)
        ≡ some r)
unfolding fetch_range
fetch_range_completes f from to concurrency before p ordered small fits ran =
    let inside : from + (to - from + 1) ≤ uint64_size = omega (arith, small, ordered) in
    let inv =
      run-Inv f from (to - from + 1) inside before (start concurrency (to - from + 1)) p ran
        (start-Inv f from (to - from + 1) inside concurrency (omega arith)) in
    let (after, q, more, done) =
      pool_completes f from (to - from + 1) inside (remaining f from (to - from + 1) p) p
        (omega arith) inv in
    (
      after,
      outcome from q,
      ground (
        arith,
        run-append f from (to - from + 1) inside before after (start concurrency (to - from + 1)) p
            ran,
        more,
        done,
      ),
    )

-- No run of `FetchRange` is longer than twice the number of blocks, one action for each worker
-- and two more.
pub fetch_range_bounded :
    (f : Fetcher) (from to : ℕ) (concurrency : ℤ) (actions : List Action) (p : Pool)
    → run f from (to - from + 1) actions (start concurrency (to - from + 1)) ≡ some p
    → length actions ≤ 2 * (to - from + 1) + worker_count concurrency (to - from + 1) + 2
unfolding start
fetch_range_bounded f from to concurrency actions p ran = omega (
  arith,
  run_bounded f from (to - from + 1) actions (start concurrency (to - from + 1)) p ran,
  all_to_do-replicate (worker_count concurrency (to - from + 1)),
)
