-- ===== src/Indexer/Ranger.antt =====
-- internal/indexer/ranger.go: `FetchRange`, its worker pool as a transition system.
-- A run is the list of what the goroutines do, in the order in which it happens; `step` says what
-- each of these does and `none` that it cannot happen there.
pub mod Invariant
pub mod Steps
pub mod Range
pub mod Outcome
pub mod Progress
pub mod Completion
pub mod Interface
pub mod Success
pub mod Linked
use ethindexer.Common.{
  ℕ, zero, suc, ◌+◌, ◌-◌, ◌%◌, List, [], ◌∷◌, Option, none, some, Bool, true, false, not, ◌&&◌,
  ◌||◌, ltb, leb, ◌==◌, if◌then◌else◌, get_elem?, set, replicate, ℤ, pos, negsuc,
}
use ethindexer.Failure.{
  Error, Result, ok, err, ◌>>=◌, ◌>>◌, guard, Context, inconsistent_block_data,
  invalid_low_fetch_range, invalid_large_fetch_range,
}
use ethindexer.Domain.{Hash, BlockBundle, uint64_size}
use ethindexer.Store.Validate.{zero_bundle}
use ethindexer.Indexer.Fetcher.{Fetcher, fetch_block}

-- A worker waits for a job, is inside `FetchBlock` for a job, or has returned.
pub data Worker : Type 0 where
  idle stopped : Worker
  fetching : ℕ → ℕ → Worker

pub record Pool : Type 0 where
  pub next : ℕ  -- the index of the job that the producer offers
  pub producing : Bool  -- the producer has not returned
  pub workers : List Worker
  pub bundles : List BlockBundle
  pub failure : Option Error  -- `errCh`, a channel with room for one
  pub cancelled : Bool  -- `workerCtx` is done
  pub parent : Context  -- `ctx.Err()`

pub data Action : Type 0 where
  -- the producer hands its job to a worker that waits
  hand : ℕ → Action
  -- a worker's `FetchBlock` returns what the chain gives
  finish : ℕ → Action
  -- a worker's `FetchBlock` returns an error because `workerCtx` is done
  interrupt : ℕ → Error → Action
  -- a worker that waits returns
  quit : ℕ → Action
  -- the producer returns and closes the channel
  close : Action
  -- the caller's context ends
  cancel : Error → Action

abbrev pub first_error : Option Error → Error → Option Error
first_error none e = some e
first_error (some first) e = some first

-- The worker reports an error, unless one is there, cancels and returns.
abbrev pub failed : ℕ → Error → Pool → Pool
failed w e p = record p {
  workers = set p.workers w stopped;
  failure = first_error p.failure e;
  cancelled = true;
}

abbrev pub received : ℕ → ℕ → Result BlockBundle → Pool → Pool
received w index (ok bundle) p = record p {
  workers = set p.workers w idle;
  bundles = set p.bundles index bundle;
}
received w index (err e) p = failed w e p

abbrev pub quit_at : Option Worker → ℕ → Pool → Option Pool
quit_at (some idle) w p =
    if p.cancelled || not p.producing
    then some (record p { workers = set p.workers w stopped })
    else none
quit_at _ w p = none

abbrev pub interrupt_at : Option Worker → ℕ → Error → Pool → Option Pool
interrupt_at (some (fetching index number)) w e p =
    if p.cancelled then some (failed w e p) else none
interrupt_at _ w e p = none

module _ (f : Fetcher) (from count : ℕ) where
  -- `fetchJob{index: i, blockNumber: from + uint64(i)}`
  abbrev pub hand_to : Option Worker → ℕ → Pool → Option Pool
  hand_to (some idle) w p =
      if p.producing && ltb p.next count
      then some (record p {
        next = p.next + 1;
        workers = set p.workers w (fetching p.next ((from + p.next) % uint64_size));
      })
      else none
  hand_to _ w p = none

  abbrev pub finish_at : Option Worker → ℕ → Pool → Option Pool
  finish_at (some (fetching index number)) w p = some (received w index (fetch_block f number) p)
  finish_at _ w p = none

  unfoldable pub step : Action → Pool → Option Pool
  step (hand w) p = hand_to (get_elem? p.workers w) w p
  step (finish w) p = finish_at (get_elem? p.workers w) w p
  step (interrupt w e) p = interrupt_at (get_elem? p.workers w) w e p
  step (quit w) p = quit_at (get_elem? p.workers w) w p
  step close p =
      if p.producing && (p.next == count || p.cancelled)
      then some (record p { producing = false })
      else none
  step (cancel e) p = elim p.parent [
    | none ↦ some (record p { parent = some e; cancelled = true })
    | some _ ↦ none
  ]

  unfoldable pub run : List Action → Pool → Option Pool
  run [] p = some p
  run (action ∷ actions) p = elim (step action p) [ none ↦ none | some q ↦ run actions q ]

-- `pWg.Wait()` and `cWg.Wait()` have returned.
abbrev pub all_stopped : List Worker → Bool
all_stopped [] = true
all_stopped (stopped ∷ workers) = all_stopped workers
all_stopped (_ ∷ workers) = false

abbrev pub is_done : Pool → Bool
is_done p = not p.producing && all_stopped p.workers

-- `validateFetchedBundles` from position `i` on, after a block with the hash `previous`.
abbrev pub follows : Option Hash → BlockBundle → Bool
follows none bundle = true
follows (some previous) bundle = bundle.block.parent_hash == previous

unfoldable pub validate_fetched_bundles : ℕ → ℕ → Option Hash → List BlockBundle → Result (Unit {0})
validate_fetched_bundles from i previous [] = ok tt
validate_fetched_bundles from i previous (bundle ∷ rest) = do
  guard (bundle.block.number == (from + i) % uint64_size) inconsistent_block_data
  guard (follows previous bundle) inconsistent_block_data
  validate_fetched_bundles from (suc i) (some bundle.block.hash) rest

abbrev no_error : Option Error → Result (Unit {0})
no_error none = ok tt
no_error (some e) = err e

-- What `FetchRange` returns once the goroutines have returned.
unfoldable pub outcome : ℕ → Pool → Result (List BlockBundle)
outcome from p = do
  no_error p.failure
  no_error p.parent
  validate_fetched_bundles from 0 none p.bundles
  ok p.bundles

-- `concurrency < 1` is raised to 1, and more workers than blocks are not started.
abbrev pub at_least_one : ℤ → ℕ
at_least_one (pos zero) = 1
at_least_one (pos (suc n)) = suc n
at_least_one (negsuc n) = 1

abbrev pub worker_count : ℤ → ℕ → ℕ
worker_count concurrency count =
    if ltb count (at_least_one concurrency) then count else at_least_one concurrency

unfoldable pub start : ℤ → ℕ → Pool
start concurrency count = record {
  next = 0;
  producing = true;
  workers = replicate (worker_count concurrency count) idle;
  bundles = replicate count zero_bundle;
  failure = none;
  cancelled = false;
  parent = none;
}

abbrev pub max_int : ℕ
max_int = 9_223_372_036_854_775_807

abbrev pub finished : ℕ → Option Pool → Option (Result (List BlockBundle))
finished from none = none
finished from (some p) = if is_done p then some (outcome from p) else none

-- The result of a run; `none` says that the list is no complete run.
unfoldable pub fetch_range : Fetcher → ℕ → ℕ → ℤ → List Action → Option (Result (List BlockBundle))
fetch_range f from to concurrency actions =
    if ltb to from
    then some (err invalid_low_fetch_range)
    else (if leb max_int (to - from)
        then some (err invalid_large_fetch_range)
        else (let count = to - from + 1 in
            finished from (run f from count actions (start concurrency count))))
