-- ===== src/Indexer/Ranger/Range.antt =====
-- What `FetchRange` returns, whatever the order in which its goroutines run.
use ethindexer.Common.{
  ℕ, ◌+◌, ◌≤◌, ◌≡◌, inl, inr, refl, List, [], ◌∷◌, Option, none, some, get_elem?,
  get_elem?-replicate, length-replicate, ℤ, arith, Option-cases, subst,
}
use ethindexer.Failure.{Error, Result-cases}
use ethindexer.Domain.{uint64_size}
use ethindexer.Store.Validate.{zero_bundle}
use ethindexer.Indexer.Fetcher.{Fetcher, fetch_block}
use ethindexer.Indexer.Ranger.{
  Worker, idle, stopped, fetching, Pool, Action, hand, finish, interrupt, quit, close, cancel,
  hand_to, finish_at, quit_at, interrupt_at, step, run, start, worker_count,
}
use ethindexer.Indexer.Ranger.Invariant.{Inv, failed-Inv, hand-Inv}
use ethindexer.Indexer.Ranger.Steps.{stored-Inv, left-Inv, close-Inv, cancel-Inv}

module _ (f : Fetcher) (from count : ℕ) (small : from + count ≤ uint64_size) where
  hand_to-Inv :
      (s : Option Worker) (w : ℕ) (p q : Pool)
      → get_elem? p.workers w ≡ s
      → hand_to f from count s w p ≡ some q
      → Inv f from count small p
      → Inv f from count small q
  hand_to-Inv none w p q at h inv = absurd (ground arith)
  hand_to-Inv (some stopped) w p q at h inv = absurd (ground arith)
  hand_to-Inv (some (fetching i n)) w p q at h inv = absurd (ground arith)
  hand_to-Inv (some idle) w p q at h inv =
      subst (Inv f from count small) (ground (arith, h))
        (hand-Inv f from count small w p at (ground (arith, h)) (ground (arith, h)) inv)

  finish_at-Inv :
      (s : Option Worker) (w : ℕ) (p q : Pool)
      → get_elem? p.workers w ≡ s
      → finish_at f from count s w p ≡ some q
      → Inv f from count small p
      → Inv f from count small q
  finish_at-Inv none w p q at h inv = absurd (ground arith)
  finish_at-Inv (some stopped) w p q at h inv = absurd (ground arith)
  finish_at-Inv (some idle) w p q at h inv = absurd (ground arith)
  finish_at-Inv (some (fetching i n)) w p q at h inv = elim (Result-cases (fetch_block f n)) [
    | inl (b, is) ↦
        subst (Inv f from count small) (ground (arith, h, is))
          (stored-Inv f from count small w i n b p at is inv)
    | inr (e, is) ↦
        subst (Inv f from count small) (ground (arith, h, is))
          (failed-Inv f from count small w e p inv)
  ]

  quit_at-Inv :
      (s : Option Worker) (w : ℕ) (p q : Pool)
      → get_elem? p.workers w ≡ s
      → quit_at s w p ≡ some q
      → Inv f from count small p
      → Inv f from count small q
  quit_at-Inv none w p q at h inv = absurd (ground arith)
  quit_at-Inv (some stopped) w p q at h inv = absurd (ground arith)
  quit_at-Inv (some (fetching i n)) w p q at h inv = absurd (ground arith)
  quit_at-Inv (some idle) w p q at h inv =
      subst (Inv f from count small) (ground (arith, h))
        (left-Inv f from count small w p at (ground (arith, h)) inv)

  interrupt_at-Inv :
      (s : Option Worker) (w : ℕ) (e : Error) (p q : Pool)
      → interrupt_at s w e p ≡ some q
      → Inv f from count small p
      → Inv f from count small q
  interrupt_at-Inv none w e p q h inv = absurd (ground arith)
  interrupt_at-Inv (some stopped) w e p q h inv = absurd (ground arith)
  interrupt_at-Inv (some idle) w e p q h inv = absurd (ground arith)
  interrupt_at-Inv (some (fetching i n)) w e p q h inv =
      subst (Inv f from count small) (ground (arith, h)) (failed-Inv f from count small w e p inv)

  pub step-Inv :
      (a : Action) (p q : Pool)
      → step f from count a p ≡ some q
      → Inv f from count small p
      → Inv f from count small q
  unfolding step
  step-Inv (hand w) p q h inv = hand_to-Inv _ w p q refl h inv
  step-Inv (finish w) p q h inv = finish_at-Inv _ w p q refl h inv
  step-Inv (interrupt w e) p q h inv = interrupt_at-Inv _ w e p q h inv
  step-Inv (quit w) p q h inv = quit_at-Inv _ w p q refl h inv
  step-Inv close p q h inv =
      subst (Inv f from count small) (ground (arith, h))
        (close-Inv f from count small p (ground (arith, h)) inv)
  step-Inv (cancel e) p q h inv =
      subst (Inv f from count small) (ground (arith, h)) (cancel-Inv f from count small e p inv)

  pub run-Inv :
      (actions : List Action) (p q : Pool)
      → run f from count actions p ≡ some q
      → Inv f from count small p
      → Inv f from count small q
  unfolding run
  run-Inv [] p q h inv = subst (Inv f from count small) (ground (arith, h)) inv
  run-Inv (a ∷ actions) p q h inv = elim (Option-cases (step f from count a p)) [
    | inl stuck ↦ absurd (ground (arith, h, stuck))
    | inr (r, is) ↦ run-Inv actions r q (ground (arith, h, is)) (step-Inv a p r is inv)
  ]

  pub start-Inv : (concurrency : ℤ) → 1 ≤ count → Inv f from count small (start concurrency count)
  unfolding start
  start-Inv concurrency some_block = record {
    size = length-replicate count zero_bundle;
    staffed = ground (arith, some_block, length-replicate (worker_count concurrency count) idle);
    bound = ground arith;
    jobs = λ w i n at. absurd (
        ground
          (arith, get_elem?-replicate (worker_count concurrency count) w idle (fetching i n) at));
    handed = λ c i lt. absurd (ground arith);
    stops = λ w at.
        absurd
          (ground (arith, get_elem?-replicate (worker_count concurrency count) w idle stopped at));
    quiet = λ c. (refl, refl);
    reason = λ c. absurd (ground arith);
    ended = λ c. absurd (ground arith);
  }
