-- ===== src/Indexer/Ranger/Linked.antt =====
-- `FetchRange` returns the range of a chain whose blocks can all be fetched and are linked.
use ethindexer.Common.{
  ℕ, suc, ◌+◌, ◌-◌, ◌≤◌, ◌<◌, ◌≡◌, refl, List, [], ◌∷◌, Option, none, some, true, get_elem?,
  get_elem?-some-lt, ℤ, length, arith, subst, Option-cases, inl, inr,
}
use ethindexer.Failure.{Result, ok}
use ethindexer.Domain.{Hash, BlockBundle, uint64_size}
use ethindexer.Indexer.Fetcher.{Fetcher, fetch_block}
use ethindexer.Indexer.Fetcher.Bundle.{fetch_block-IsConsistent}
use ethindexer.Indexer.Ranger.{
  Pool, Action, run, start, is_done, follows, validate_fetched_bundles, outcome, fetch_range,
  max_int,
}
use ethindexer.Indexer.Ranger.Range.{run-Inv, start-Inv}
use ethindexer.Indexer.Ranger.Outcome.{done-IsFilled}
use ethindexer.Indexer.Ranger.Success.{is_undisturbed, run-IsClean}

-- Blocks that are numbered and linked pass the check.
linked_validate :
    (bundles : List BlockBundle) (from i : ℕ) (previous : Option Hash)
    → from + i + length bundles ≤ uint64_size
    → ((j : ℕ) (b : BlockBundle) → get_elem? bundles j ≡ some b → b.block.number ≡ from + i + j)
    → ((j : ℕ) (a b : BlockBundle)
        → get_elem? bundles j ≡ some a
        → get_elem? bundles (suc j) ≡ some b
        → b.block.parent_hash ≡ a.block.hash)
    → ((b : BlockBundle) → get_elem? bundles 0 ≡ some b → follows previous b ≡ true)
    → validate_fetched_bundles from i previous bundles ≡ ok tt
unfolding validate_fetched_bundles
linked_validate [] from i previous small numbers links first = refl
linked_validate (b ∷ rest) from i previous small numbers links first = ground (
  arith,
  small,
  numbers 0 b refl,
  first b refl,
  linked_validate rest from (suc i) (some b.block.hash) (omega (arith, small))
      (λ j c at. omega (arith, numbers (suc j) c at)) (λ j. links (suc j))
      (λ c at. ground (arith, links 0 b c refl at)),
)

module _ (f : Fetcher) (from to : ℕ) (ordered : from ≤ to) (fits : to < uint64_size)
    (fetches : (n : ℕ) → from ≤ n → n ≤ to → (b : BlockBundle) × (fetch_block f n ≡ ok b))
    (links : (n : ℕ) (a b : BlockBundle)
      → fetch_block f n ≡ ok a
      → fetch_block f (n + 1) ≡ ok b
      → b.block.parent_hash ≡ a.block.hash) where
  slots_validate :
      (bundles : List BlockBundle)
      → length bundles ≡ to - from + 1
      → ((j : ℕ) (b : BlockBundle) → get_elem? bundles j ≡ some b → fetch_block f (from + j) ≡ ok b)
      → validate_fetched_bundles from 0 none bundles ≡ ok tt
  slots_validate bundles size slots =
      linked_validate bundles from 0 none (omega (arith, size, ordered, fits))
        (λ j b at.
          ground (arith, (fetch_block-IsConsistent f (from + j) b (slots j b at)).numbered))
        (λ j a b at next.
          links (from + j) a b (slots j a at)
            (subst (λ n. fetch_block f n ≡ ok b) (omega arith) (slots (suc j) b next)))
        (λ b at. refl)

  run-outcome :
      (concurrency : ℤ) (actions : List Action) (p : Pool)
      → is_undisturbed actions ≡ true
      → run f from (to - from + 1) actions (start concurrency (to - from + 1)) ≡ some p
      → is_done p ≡ true
      → outcome from p ≡ ok p.bundles
  unfolding outcome start
  run-outcome concurrency actions p calm ran done =
      let small : from + (to - from + 1) ≤ uint64_size = omega (arith, ordered, fits) in
      let begin = start-Inv f from (to - from + 1) small concurrency (omega arith) in
      let inv =
        run-Inv f from (to - from + 1) small actions (start concurrency (to - from + 1)) p ran
          begin in
      let (calm_end, fine, live) =
        run-IsClean f from (to - from + 1) small
          (λ i lt. fetches (from + i) (omega arith) (omega (arith, lt, ordered))) actions
          (start concurrency (to - from + 1)) p calm ran begin (refl, refl, refl) in
      ground (
        arith,
        fine,
        live,
        slots_validate p.bundles inv.size (λ j b at.
            let (c, there, is) =
              done-IsFilled f from (to - from + 1) small p inv done fine live j
                (ground (arith, inv.size, get_elem?-some-lt p.bundles j at)) in
            ground (arith, at, there, is)),
      )

-- On a range that `FetchRange` accepts: if every block of it can be fetched, blocks that are
-- fetched one after another are linked by their parent hash, and the caller's context does not
-- end, then every complete run returns blocks: neither the number of workers nor the order of
-- their actions decides it.
pub fetch_range_succeeds :
    (f : Fetcher) (from to : ℕ) (concurrency : ℤ) (actions : List Action)
    (r : Result (List BlockBundle))
    → from ≤ to
    → to < uint64_size
    → to - from < max_int
    → ((n : ℕ) → from ≤ n → n ≤ to → (b : BlockBundle) × (fetch_block f n ≡ ok b))
    → ((n : ℕ) (a b : BlockBundle)
        → fetch_block f n ≡ ok a
        → fetch_block f (n + 1) ≡ ok b
        → b.block.parent_hash ≡ a.block.hash)
    → is_undisturbed actions ≡ true
    → fetch_range f from to concurrency actions ≡ some r
    → (bundles : List BlockBundle) × (r ≡ ok bundles)
unfolding fetch_range
fetch_range_succeeds f from to concurrency actions r ordered small fits fetches links calm h =
    elim (Option-cases (run f from (to - from + 1) actions (start concurrency (to - from + 1)))) [
      | inl stuck ↦ absurd (ground (arith, h))
      | inr (p, is) ↦ (
        p.bundles,
        ground (
          arith,
          h,
          run-outcome f from to ordered small fetches links concurrency actions p calm is,
        ),
      )
    ]
